-- ===== src/Legacy/Web.antt =====
-- internal/legacy/web: the web server of the older layer, with its middlewares.
pub mod Batches
pub mod Http
pub mod Auth
pub mod Access
pub mod Server
pub mod Datasets
pub mod Service
