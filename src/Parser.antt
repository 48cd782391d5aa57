-- ===== src/Parser.antt =====
-- ini_and_parser/src/parser.cpp and include/parser.h: the `Parser` classes, and Config_searching in
-- `Parser/Search`.
-- `Parser/CString` is the C library's part, `Parser/Massives` the arrays that a parser owns,
-- `Parser/Classes` the four subclasses with their sections and their checks of the keywords.
pub mod CString
pub mod Massives
pub mod Classes
pub mod Search
