-- ===== src/Base/Map.antt =====
-- `BTreeMap`: an association list in ascending order of its keys. A `HashMap` is taken as one too,
-- where nothing depends on the order of its entries.
mod Defs
mod Laws
mod Sorted
unfoldable pub use Defs.*
pub use Laws.*
pub use Sorted.*
