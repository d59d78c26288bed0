-- ===== src/Bpf/Code.antt =====
-- The instruction codes that bpf.c and bpf.h write, as sums of macros of linux/filter.h.
use minijail.Base.{ℕ}

abbrev pub ld_abs : ℕ
ld_abs = 0x20

abbrev pub ld_mem : ℕ
ld_mem = 0x60

abbrev pub st : ℕ
st = 0x02

abbrev pub ja : ℕ
ja = 0x05

abbrev pub jeq : ℕ
jeq = 0x15

abbrev pub jgt : ℕ
jgt = 0x25

abbrev pub jge : ℕ
jge = 0x35

abbrev pub jset : ℕ
jset = 0x45

abbrev pub ret : ℕ
ret = 0x06
