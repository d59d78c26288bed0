-- ===== src/Jail/MountFlag.antt =====
-- The mount flags of <sys/mount.h> that libminijail.c uses.
use minijail.Base.{ℕ}

abbrev pub rdonly : ℕ
rdonly = 1

abbrev pub nosuid : ℕ
nosuid = 2

abbrev pub nodev : ℕ
nodev = 4

abbrev pub noexec : ℕ
noexec = 8

abbrev pub bind : ℕ
bind = 4096

abbrev pub private : ℕ
private = 262144

abbrev pub slave : ℕ
slave = 524288

abbrev pub shared : ℕ
shared = 1048576
