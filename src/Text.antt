-- ===== src/Text.antt =====
-- The standard library's strings and numbers, and util/string_map.go, as the padding scheme and the
-- settings of a session are read with them.
pub mod Strings
pub mod Numbers
pub mod Maps
pub mod Bounds
pub mod Written
pub mod Settings
