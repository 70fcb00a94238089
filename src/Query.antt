-- ===== src/Query.antt =====
-- parser/: the modifiers of a SQL query, for pages by offset and pages by a keyset.
pub mod Identifier
pub mod Statement
pub mod Offset
pub mod Keyset
mod Examples
