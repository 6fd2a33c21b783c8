-- ===== src/Index.antt =====
-- The index of the HTML documentation: the tables that Doxygen wrote to docs/html/search.
pub mod Entries
pub mod AllA
pub mod AllB
pub mod Classes
pub mod Defines
pub mod Files
pub mod FunctionsA
pub mod FunctionsB
pub mod Variables
pub mod Tables
pub mod Checked
pub mod Found
