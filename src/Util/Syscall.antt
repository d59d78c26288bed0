-- ===== src/Util/Syscall.antt =====
-- The tables of system calls and of named constants, which the build generates, as arguments.
use minijail.Base.{ℕ, ◌+◌, List, [], ◌∷◌, Option, none, some, if◌then◌else◌, ◌==◌, Bytes, streq}

-- struct syscall_entry, for the entries in front of the final one.
pub record SyscallEntry : Type 0 where
  pub name : Bytes
  pub nr : ℕ

-- struct constant_entry
pub record ConstantEntry : Type 0 where
  pub name : Bytes
  pub value : ℕ

unfoldable pub lookup_from : ℕ → List SyscallEntry → Bytes → Option (ℕ × ℕ)
lookup_from ind [] name = none
lookup_from ind (entry ∷ table) name =
    if streq entry.name name then some (entry.nr, ind) else lookup_from (ind + 1) table name

-- The number and the index of a system call, none for -1.
unfoldable pub lookup_syscall : List SyscallEntry → Bytes → Option (ℕ × ℕ)
lookup_syscall syscall_table name = lookup_from 0 syscall_table name

unfoldable pub lookup_syscall_name : List SyscallEntry → ℕ → Option Bytes
lookup_syscall_name [] nr = none
lookup_syscall_name (entry ∷ table) nr =
    if entry.nr == nr then some entry.name else lookup_syscall_name table nr

unfoldable pub lookup_constant : List ConstantEntry → Bytes → Option ℕ
lookup_constant [] name = none
lookup_constant (entry ∷ table) name =
    if streq entry.name name then some entry.value else lookup_constant table name
