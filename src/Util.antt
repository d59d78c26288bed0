-- ===== src/Util.antt =====
-- util.c. A pointer into a string that the source cuts by writing a NUL is the rest of the string
-- from there on, and a pointer that may be NULL is an `Option`.
pub mod Text
pub mod Lines
pub mod Size
pub mod Buffer
pub mod Env
pub mod Number
pub mod Constant
pub mod Syscall
