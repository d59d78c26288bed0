-- ===== src/Filter.antt =====
-- syscall_filter.c: policies to BPF programs.
pub mod Outcome
pub mod Blocks
pub mod Names
pub mod Line
pub mod File
