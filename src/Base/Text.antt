-- ===== src/Base/Text.antt =====
-- Text as a list of Unicode scalar values, with the parts of Rust's `str` and `char` that the
-- program calls. Lengths in bytes are those of UTF-8.
mod Chars
mod Slices
mod Decimal
mod Laws
unfoldable pub use Chars.*
unfoldable pub use Slices.*
unfoldable pub use Decimal.*
pub use Laws.*
