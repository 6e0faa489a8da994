-- ===== src/Web.antt =====
-- app/web: settings as the pages and the jobs read them, pages of a list, and labels.
pub mod Settings
pub mod Pagination
pub mod Labels
