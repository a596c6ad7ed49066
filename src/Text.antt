-- ===== src/Text.antt =====
-- The operations of `str` and `char` that the program uses, on Unicode texts.
mod Trim
mod Words
pub mod Laws
unfoldable pub use Trim.*
unfoldable pub use Words.*
