-- ===== src/Layer.antt =====
-- internal/layer: the data layer that runs under the common-datalayer service.
pub mod Error
pub mod Any
pub mod Key
pub mod Definition
pub mod Mysql
pub mod Write
pub mod Read
pub mod Config
