-- ===== src/Legacy.antt =====
-- internal/legacy: the older layer, with its own web server.
pub mod Conf
pub mod Environment
pub mod Query
pub mod Datasets
pub mod Rows
pub mod Post
pub mod Security
pub mod Manager
pub mod Changes
pub mod Web
