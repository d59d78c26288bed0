-- ===== src/Jail/Errno.antt =====
-- The error codes of <errno.h> that libminijail.c returns, before they are negated.
use minijail.Base.{ℕ}

abbrev pub enoent : ℕ
enoent = 2

abbrev pub enomem : ℕ
enomem = 12

abbrev pub eexist : ℕ
eexist = 17

abbrev pub einval : ℕ
einval = 22

abbrev pub erange : ℕ
erange = 34

abbrev pub enosys : ℕ
enosys = 38

abbrev pub eloop : ℕ
eloop = 40
