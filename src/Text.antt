-- ===== src/Text.antt =====
-- Rust's `String` and `str`, as far as the program uses them. A text is the list of its Unicode
-- scalar values; its bytes are their UTF-8 encoding (Utf8). The functions stand for those of the
-- standard library that the program calls, and model no code of the repository themselves.
mod Defs
pub mod Ascii
pub mod Utf8
pub mod Trim
pub mod Search
pub mod Number
pub mod Decimal
pub mod Decode
unfoldable pub use Defs.{Text, lit, text_eq, text_cmp, is_empty}
pub use Defs.{text_eq_iff, text_eq_refl, text_eq_ne, Text-discrete}
