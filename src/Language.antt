-- ===== src/Language.antt =====
-- src/languages/fstrips: the logical language of FSTRIPS, its interpretation and its binding.
pub mod Syntax
pub mod Builtin
pub mod Interpret
pub mod Bind
