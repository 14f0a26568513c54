-- ===== src/Filter.antt =====
-- src/chat_filter.rs: the word list of the chat filter, the folding of characters and the masking of a
-- line. The built-in list and an extra file are arguments, as texts.
mod Folding
mod Matching
pub mod Bounds
pub mod Masking
pub mod Ending
pub mod Hiding
pub mod Lines
pub mod Boundaries
pub mod Examples
unfoldable pub use Folding.*
unfoldable pub use Matching.*
