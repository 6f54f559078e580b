-- ===== src/Taxonomy.antt =====
-- The taxonomy of src/patsquire_plr/landscape/taxonomy.py: `Spec` has what a person edits and its
-- validators; `Ids`, `Segment`, `Pick` and `Draft` the drafting by the model; the other children
-- prove.
pub mod Spec
pub mod Error
pub mod Ids
pub mod Segment
pub mod Pick
pub mod Hints
pub mod Draft
pub mod Edit
mod Fresh
mod Offers
mod Picked
mod Drafted
mod Errors
mod Content
mod Replaced
mod Edited
mod Tests
mod EditTests
