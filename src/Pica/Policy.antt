-- ===== src/Pica/Policy.antt =====
-- The policy file: the JSON value that json-c reads from it, and the policy that is made of it.
pub mod Json
pub mod Parse
pub mod Read
pub mod Described
pub mod Statement
pub mod Whole
pub mod Unversioned
pub mod Loaded
