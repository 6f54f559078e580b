-- ===== src/Clean.antt =====
-- Building a dataset (src/patsquire_plr/clean/dataset.py): the choice among copies of a publication
-- (Copies), and the statements of families (Families).
pub mod Copies
pub mod Families
pub mod Union
pub mod Grouping
