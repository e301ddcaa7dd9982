-- ===== src/Std.antt =====
-- What the program uses of Rust's standard library.
pub mod Deque
pub mod Utf8
pub mod Text
