-- ===== src/Jail/Landlock.antt =====
-- The access rights of landlock.h, and their unions of landlock_util.h.
use minijail.Base.{ℕ, ◌+◌, bit_or}

abbrev pub execute : ℕ
execute = 1

abbrev pub write_file : ℕ
write_file = 2

abbrev pub read_file : ℕ
read_file = 4

abbrev pub read_dir : ℕ
read_dir = 8

abbrev pub remove_dir : ℕ
remove_dir = 16

abbrev pub remove_file : ℕ
remove_file = 32

abbrev pub make_char : ℕ
make_char = 64

abbrev pub make_dir : ℕ
make_dir = 128

abbrev pub make_reg : ℕ
make_reg = 256

abbrev pub make_sock : ℕ
make_sock = 512

abbrev pub make_fifo : ℕ
make_fifo = 1024

abbrev pub make_block : ℕ
make_block = 2048

abbrev pub make_sym : ℕ
make_sym = 4096

abbrev pub refer : ℕ
refer = 8192

-- The rights of a union are different bits, so `|` is their sum.
abbrev pub roughly_read : ℕ
roughly_read = read_file + read_dir

abbrev pub roughly_read_execute : ℕ
roughly_read_execute = execute + read_file + read_dir

abbrev pub roughly_basic_write : ℕ
roughly_basic_write = write_file + remove_dir + remove_file + make_dir + make_reg

abbrev pub roughly_edit : ℕ
roughly_edit = write_file + remove_dir + remove_file

abbrev pub roughly_full_write : ℕ
roughly_full_write =
    write_file + remove_dir + remove_file + make_char + make_dir + make_reg + make_sock + make_fifo
    + make_block + make_sym

abbrev pub handled_access_types : ℕ
handled_access_types = bit_or roughly_read_execute roughly_full_write

abbrev pub abi_fs_refer_supported : ℕ
abi_fs_refer_supported = 2
