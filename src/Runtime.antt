-- ===== src/Runtime.antt =====
-- The Python runtime as the program sees it: the interface, and one concrete instance of it.
mod Defs
pub mod Fixed
pub use Defs.{
  Json, null, flag, integer, number, text, array, object, Items, item, no_items, Entries,
}
pub use Defs.{Dict, object_of, entries_of, dict_of, dict_of-entries_of, items_of, texts}
pub use Defs.{text_or_null, number_or_null, integer_or_null}
pub use Defs.{Runtime, zero_point, max_of, min_of, IsIeee}
unfoldable pub use Defs.{stable_artifact_id}
