-- ===== src/Admin.antt =====
-- internal/admin: the pages of the operators. A page is the data that its template is given. The
-- children are a module for each file of the source, and what the handlers leave alone.
pub mod Views
pub mod Pages
pub mod Login
pub mod Dashboard
pub mod Apps
pub mod Clients
pub mod Providers
pub mod Routes
pub mod Gate
pub mod Counts
