-- ===== src/Json.antt =====
-- The standard library's `json`, as far as it is used here: `dumps` with the separators "," and
-- ":", and `loads`.
mod Defs
mod Scan
mod Print
mod Escapes
mod Parse
mod RoundTrip
pub use Defs.*
unfoldable pub use Defs.{get_field, text_items}
unfoldable pub use Print.{dumps}
unfoldable pub use Parse.{loads}
pub use RoundTrip.{loads-dumps}
unfoldable pub use RoundTrip.{IsTextual}
