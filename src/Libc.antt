-- ===== src/Libc.antt =====
-- What the code uses of the C library on text: a string is the list of its characters, without
-- the NUL at its end.
pub mod Text
pub mod Number
pub mod Decimal
pub mod Files
