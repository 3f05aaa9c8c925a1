-- ===== src/Layer/Read.antt =====
-- internal/layer/read.go.
pub mod Query
pub mod Iterator
pub mod Columns
pub mod Windows
pub mod Rows
pub mod EntityColumn
mod Samples
