-- ===== src/Paths.antt =====
-- src/service/path_bounds.rs: requests for files are bound to managed roots. A path is the list of its
-- components, as std::path compares paths on Unix; `text_of` prints it.
pub mod Lexical
pub mod Resolve
pub mod Results
pub mod Open
pub mod Write
mod Examples
