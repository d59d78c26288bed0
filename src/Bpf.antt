-- ===== src/Bpf.antt =====
-- bpf.h and bpf.c: instructions, and the functions that write short blocks of them. A function
-- that writes at `filter` and returns how many it wrote returns the list of them here. The
-- 64-bit little-endian configuration (BITS64) is modelled.
pub mod Code
pub mod Ret
pub mod Machine
pub mod Compare
pub mod ArgComp
pub mod Dispatch
pub mod Labels
use minijail.Base.{
  ℕ, ◌+◌, ◌-◌, ◌*◌, ◌/◌, ◌%◌, ◌^◌, Bool, true, false, List, [], ◌∷◌, ◌++◌, Option, none, some,
  if◌then◌else◌, ◌==◌,
}

-- struct sock_filter
pub record Instr : Type 0 where
  pub code : ℕ
  pub jt : ℕ
  pub jf : ℕ
  pub k : ℕ

-- Common jump targets, and the marks of jumps to labels and of labels.
abbrev pub next : ℕ
next = 0

abbrev pub skip : ℕ
skip = 1

abbrev pub skip_n : ℕ → ℕ
skip_n n = n

abbrev pub jump_jt : ℕ
jump_jt = 0xff

abbrev pub jump_jf : ℕ
jump_jf = 0xff

abbrev pub label_jt : ℕ
label_jt = 0xfe

abbrev pub label_jf : ℕ
label_jf = 0xfe

-- The conversions of the arguments to unsigned short, unsigned int and unsigned char.
abbrev pub set_bpf_instr : ℕ → ℕ → ℕ → ℕ → Instr
set_bpf_instr code k jt jf = record {
  code = code % 2 ^ 16;
  jt = jt % 2 ^ 8;
  jf = jf % 2 ^ 8;
  k = k % 2 ^ 32;
}

abbrev pub set_bpf_stmt : ℕ → ℕ → Instr
set_bpf_stmt code k = set_bpf_instr code k 0 0

abbrev pub set_bpf_jump : ℕ → ℕ → ℕ → ℕ → Instr
set_bpf_jump code k jt jf = set_bpf_instr code k jt jf

abbrev pub set_bpf_lbl : ℕ → Instr
set_bpf_lbl lbl_id = set_bpf_jump Code.ja lbl_id label_jt label_jf

abbrev pub set_bpf_jump_lbl : ℕ → Instr
set_bpf_jump_lbl lbl_id = set_bpf_jump Code.ja lbl_id jump_jt jump_jf

abbrev pub set_bpf_ret_kill : Instr
set_bpf_ret_kill = set_bpf_stmt Code.ret Ret.kill

abbrev pub set_bpf_ret_kill_process : Instr
set_bpf_ret_kill_process = set_bpf_stmt Code.ret Ret.kill_process

abbrev pub set_bpf_ret_trap : Instr
set_bpf_ret_trap = set_bpf_stmt Code.ret Ret.trap

-- `SECCOMP_RET_ERRNO | (errno & SECCOMP_RET_DATA)`: the two have no bit in common.
abbrev pub set_bpf_ret_errno : ℕ → Instr
set_bpf_ret_errno errno = set_bpf_stmt Code.ret (Ret.errno_base + errno % 2 ^ 16)

abbrev pub set_bpf_ret_log : Instr
set_bpf_ret_log = set_bpf_stmt Code.ret Ret.log

abbrev pub set_bpf_ret_allow : Instr
set_bpf_ret_allow = set_bpf_stmt Code.ret Ret.allow

-- Byte offsets in struct seccomp_data.
abbrev pub syscall_nr : ℕ
syscall_nr = 0

abbrev pub arch_nr : ℕ
arch_nr = 4

abbrev pub lo_arg : ℕ → ℕ
lo_arg idx = 16 + 8 * idx

abbrev pub hi_arg : ℕ → ℕ
hi_arg idx = 16 + 8 * idx + 4

abbrev pub bpf_load_syscall_nr : Instr
bpf_load_syscall_nr = set_bpf_stmt Code.ld_abs syscall_nr

-- The architecture number MINIJAIL_ARCH_NR of linux/audit.h is an argument.
unfoldable pub bpf_validate_arch : ℕ → List Instr
bpf_validate_arch minijail_arch_nr =
    set_bpf_stmt Code.ld_abs arch_nr
    ∷ set_bpf_jump Code.jeq minijail_arch_nr skip next
    ∷ set_bpf_ret_kill
    ∷ []

unfoldable pub bpf_allow_syscall : ℕ → List Instr
bpf_allow_syscall nr = set_bpf_jump Code.jeq nr next skip ∷ set_bpf_stmt Code.ret Ret.allow ∷ []

unfoldable pub bpf_allow_syscall_args : ℕ → ℕ → List Instr
bpf_allow_syscall_args nr id = set_bpf_jump Code.jeq nr next skip ∷ set_bpf_jump_lbl id ∷ []

unfoldable pub bpf_load_arg : ℕ → List Instr
bpf_load_arg argidx =
    set_bpf_stmt Code.ld_abs (lo_arg argidx)
    ∷ set_bpf_stmt Code.st 0
    ∷ set_bpf_stmt Code.ld_abs (hi_arg argidx)
    ∷ set_bpf_stmt Code.st 1
    ∷ []

-- `(unsigned int)(c & 0xFFFFFFFF)` and `(unsigned int)(c >> 32)`.
abbrev pub lo_word : ℕ → ℕ
lo_word c = c % 2 ^ 32

abbrev pub hi_word : ℕ → ℕ
hi_word c = c / 2 ^ 32 % 2 ^ 32

abbrev pub bpf_comp_jeq32 : ℕ → ℕ → ℕ → List Instr
bpf_comp_jeq32 c jt jf = set_bpf_jump Code.jeq (lo_word c) jt jf ∷ []

unfoldable pub bpf_comp_jeq64 : ℕ → ℕ → ℕ → List Instr
bpf_comp_jeq64 c jt jf =
    bpf_comp_jeq32 (hi_word c) next (skip_n 2 + jf)
    ++ (set_bpf_stmt Code.ld_mem 0 ∷ bpf_comp_jeq32 (lo_word c) jt jf)

abbrev pub bpf_comp_jgt32 : ℕ → ℕ → ℕ → List Instr
bpf_comp_jgt32 c jt jf = set_bpf_jump Code.jgt (lo_word c) jt jf ∷ []

abbrev pub bpf_comp_jge32 : ℕ → ℕ → ℕ → List Instr
bpf_comp_jge32 c jt jf = set_bpf_jump Code.jge (lo_word c) jt jf ∷ []

unfoldable pub bpf_comp_jgt64 : ℕ → ℕ → ℕ → List Instr
bpf_comp_jgt64 c jt jf =
    (if hi_word c == 0
      then bpf_comp_jgt32 (hi_word c) (skip_n 2 + jt) next
      else bpf_comp_jgt32 (hi_word c) (skip_n 3 + jt) next
        ++ bpf_comp_jeq32 (hi_word c) next (skip_n 2 + jf))
    ++ (set_bpf_stmt Code.ld_mem 0 ∷ bpf_comp_jgt32 (lo_word c) jt jf)

unfoldable pub bpf_comp_jge64 : ℕ → ℕ → ℕ → List Instr
bpf_comp_jge64 c jt jf =
    (if hi_word c == 0
      then bpf_comp_jgt32 (hi_word c) (skip_n 2 + jt) next
      else bpf_comp_jgt32 (hi_word c) (skip_n 3 + jt) next
        ++ bpf_comp_jeq32 (hi_word c) next (skip_n 2 + jf))
    ++ (set_bpf_stmt Code.ld_mem 0 ∷ bpf_comp_jge32 (lo_word c) jt jf)

abbrev pub bpf_comp_jset32 : ℕ → ℕ → ℕ → List Instr
bpf_comp_jset32 mask jt jf = set_bpf_jump Code.jset (lo_word mask) jt jf ∷ []

unfoldable pub bpf_comp_jset64 : ℕ → ℕ → ℕ → List Instr
bpf_comp_jset64 mask jt jf =
    bpf_comp_jset32 (hi_word mask) (skip_n 2 + jt) next
    ++ (set_bpf_stmt Code.ld_mem 0 ∷ bpf_comp_jset32 (lo_word mask) jt jf)

-- `~mask` of an unsigned long.
abbrev pub complement : ℕ → ℕ
complement mask = 2 ^ 64 - 1 - mask % 2 ^ 64

unfoldable pub bpf_comp_jin : ℕ → ℕ → ℕ → List Instr
unfolding bpf_comp_jset64
bpf_comp_jin mask jt jf = bpf_comp_jset64 (complement mask) jf jt

-- Operators: the enum of bpf.h starts at MIN_OPERATOR, and other values of the int are invalid.
pub data Op : Type 0 where
  eq ne lt le gt ge set in_mask : Op
  invalid : Op

abbrev pub bpf_arg_comp_len : Op → ℕ → ℕ
bpf_arg_comp_len Op.lt c = if c / 2 ^ 32 == 0 then 8 else 9
bpf_arg_comp_len Op.le c = if c / 2 ^ 32 == 0 then 8 else 9
bpf_arg_comp_len Op.gt c = if c / 2 ^ 32 == 0 then 8 else 9
bpf_arg_comp_len Op.ge c = if c / 2 ^ 32 == 0 then 8 else 9
bpf_arg_comp_len _ c = 8

-- `comp_function` and `flip` of the switch in `bpf_arg_comp`, `none` for its default case.
abbrev pub jump_type : Op → Option ((ℕ → ℕ → ℕ → List Instr) × Bool)
jump_type Op.eq = some (bpf_comp_jeq64, false)
jump_type Op.ne = some (bpf_comp_jeq64, true)
jump_type Op.lt = some (bpf_comp_jge64, true)
jump_type Op.le = some (bpf_comp_jgt64, true)
jump_type Op.gt = some (bpf_comp_jgt64, false)
jump_type Op.ge = some (bpf_comp_jge64, false)
jump_type Op.set = some (bpf_comp_jset64, false)
jump_type Op.in_mask = some (bpf_comp_jin, false)
jump_type Op.invalid = none

-- The block that `*pfilter` gets, empty where the function returns 0. Allocation succeeds.
unfoldable pub bpf_arg_comp : Op → ℕ → ℕ → ℕ → List Instr
bpf_arg_comp op argidx c label_id = elim (jump_type op) [
  | none ↦ []
  | some (comp_function, flip) ↦
      bpf_load_arg argidx
      ++ (comp_function c (if flip then next else skip) (if flip then skip else next)
          ++ (set_bpf_jump_lbl label_id ∷ []))
]
