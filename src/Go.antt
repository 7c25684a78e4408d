-- ===== src/Go.antt =====
-- What the operator uses of the Go language and its standard library: texts as byte slices, maps,
-- errors, times and durations, base64.
pub mod Text
pub mod Map
pub mod Error
pub mod Time
pub mod Base64
pub mod Panic
