-- ===== src/Listing.antt =====
-- The tables of the admin pages: what a page asks the server for and which rows it then shows.
pub mod Rows
pub mod Order
pub mod Screens
pub mod Asked
mod Tests
