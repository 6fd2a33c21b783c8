-- ===== src/Tests.antt =====
-- The theorems at concrete inputs, and tests of the definitions.
mod Panel
mod Results
mod Finds
mod Menus
mod Folds
mod Keys
mod Dicts
mod Requests
mod Stores
mod Caches
mod Servers
