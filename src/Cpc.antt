-- ===== src/Cpc.antt =====
-- The CPC scheme of src/patsquire_plr/classification/cpc.py, and the normalisation of classification
-- codes of src/patsquire_plr/domain/patent.py. `Code` has the codes, `Scheme` and `Within` the class
-- `CpcScheme`, `Search` its title search, `Titles` the reader of the title list; the others prove.
pub mod Code
pub mod Scheme
pub mod Within
mod Entries
mod Placed
mod Listed
mod Paths
mod Apart
mod Children
mod Below
mod Descent
mod Found
pub mod Tests
pub mod Titles
pub mod Search
