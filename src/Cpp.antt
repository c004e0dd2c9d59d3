-- ===== src/Cpp.antt =====
-- cpp/src/: the second frontend of the protocol, in C++. A `std::string` is its bytes, and `size_t`,
-- `uint64_t` and `uint32_t` are numbers with their wrap-around written out.
pub mod Errors
pub mod Client
pub mod Encoding
pub mod Endpoints
pub mod Launch
pub mod Manifest
pub mod Sockets
pub mod Spawn
