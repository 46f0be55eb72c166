-- ===== src/Strings.antt =====
-- The functions of src/c/string, src/c/strings, src/c/memory and src/c/wchar over the memory of
-- `Memory`. A cell is a byte for the functions on `char` and a code for those on `wchar_t`.
pub mod Block
pub mod Compare
pub mod Find
pub mod Span
pub mod Copy
pub mod Errors
pub mod Wide
pub mod Substring
