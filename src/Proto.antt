-- ===== src/Proto.antt =====
-- The messages of proto/omso/capture/v1/: one record for a message, one data type for a oneof, and
-- the enumerations that the code converts. A `string` is its bytes, a `double` its bit pattern
-- (the code does no arithmetic on one), and an enumeration field is the `i32` on the wire, by its
-- bit pattern.
pub mod Enums
pub mod Device
pub mod Stream
pub mod Control
pub mod Manifest
