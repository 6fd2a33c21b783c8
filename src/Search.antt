-- ===== src/Search.antt =====
-- The search page of the HTML documentation, docs/html/search/search.js.
pub mod Script
pub mod Ids
pub mod Results
pub mod Nav
pub mod Box
pub mod Tree
pub mod Build
