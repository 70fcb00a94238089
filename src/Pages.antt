-- ===== src/Pages.antt =====
-- pagination/: pages of a result, by number and by cursor.
pub mod Numbered
pub mod Cursor
mod Rows
pub mod Walk
mod Tally
mod Examples
