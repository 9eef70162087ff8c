-- ===== src/Prelude/Texts.antt =====
-- Python's `str` methods that the services use, over the native text (a sequence of code points).
mod Strip
mod Split
unfoldable pub use Strip.*
unfoldable pub use Split.*
