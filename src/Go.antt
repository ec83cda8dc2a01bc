-- ===== src/Go.antt =====
-- What the program uses of Go's language and standard library.
pub mod Text
pub mod Utf8
pub mod Path
pub mod Map
pub mod Fold
pub mod Sort
pub mod Wire
