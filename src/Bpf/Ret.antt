-- ===== src/Bpf/Ret.antt =====
-- The SECCOMP_RET_ values of bpf.h.
use minijail.Base.{ℕ}

abbrev pub kill_process : ℕ
kill_process = 0x80000000

abbrev pub kill : ℕ
kill = 0x00000000

abbrev pub trap : ℕ
trap = 0x00030000

abbrev pub errno_base : ℕ
errno_base = 0x00050000

abbrev pub log : ℕ
log = 0x7ffc0000

abbrev pub allow : ℕ
allow = 0x7fff0000
