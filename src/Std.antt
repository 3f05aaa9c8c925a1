-- ===== src/Std.antt =====
-- The parts of the Go standard library that the data layer computes with: encoding/base64,
-- package time, and float64.
pub mod Base64
pub mod Time
pub mod Float
pub mod Format
