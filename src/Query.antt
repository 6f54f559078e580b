-- ===== src/Query.antt =====
-- The logical query of src/patsquire_plr/landscape/queries.py and its evaluation on stored records,
-- `LocalMatcher`; the children have the text pattern, the providers' syntax and the proofs. A date
-- is its ordinal number.
pub mod Pattern
pub mod Matcher
pub mod Kleene
pub mod Meaning
pub mod Render
pub mod Tests
mod RenderTests
