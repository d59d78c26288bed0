-- ===== src/Filter/Blocks.antt =====
-- struct filter_block, the head of a list of blocks, and the blocks that it leads to.
pub mod Flatten
pub mod Linked
use minijail.Base.{
  ℕ, ◌+◌, Bool, true, false, List, [], ◌∷◌, ◌++◌, Option, none, some, if◌then◌else◌, leb, length,
  set,
}
use minijail.Bpf.{
  Instr, set_bpf_ret_kill, set_bpf_ret_kill_process, set_bpf_ret_trap, set_bpf_ret_errno,
  set_bpf_ret_log, bpf_allow_syscall,
}
use minijail.Filter.Outcome.{Outcome, done, die}

-- `instrs` of the head, none for NULL; the blocks from `next` on, by their instructions, none of
-- them for NULL; whether `last` is the last of all blocks, or NULL; and `total_len` of the head.
-- The length of a block is that of its instructions.
pub record FilterBlock : Type 0 where
  pub instrs : Option (List Instr)
  pub next : List (List Instr)
  pub has_last : Bool
  pub total_len : ℕ

abbrev pub new_filter_block : FilterBlock
new_filter_block = record { instrs = none; next = []; has_last = false; total_len = 0 }

-- A new block behind a head that has instructions; a write through a `last` that is NULL ends the
-- process.
unfoldable pub append_behind : FilterBlock → List Instr → Outcome FilterBlock
append_behind head instrs = elim head.next [
  | [] ↦ done (record {
    instrs = head.instrs;
    next = instrs ∷ [];
    has_last = true;
    total_len = head.total_len + length instrs;
  })
  | second ∷ others ↦
      if head.has_last
      then done (record {
        instrs = head.instrs;
        next = (second ∷ others) ++ (instrs ∷ []);
        has_last = true;
        total_len = head.total_len + length instrs;
      })
      else die
]

unfoldable pub append_filter_block : FilterBlock → List Instr → Outcome FilterBlock
append_filter_block head instrs = elim head.instrs [
  | none ↦
      done (record { instrs = some instrs; next = []; has_last = false; total_len = length instrs })
  | some first ↦ append_behind head instrs
]

abbrev pub instrs_or_none : Option (List Instr) → List Instr
instrs_or_none none = []
instrs_or_none (some instrs) = instrs

-- The blocks that a head leads to, itself the first.
abbrev pub blocks : FilterBlock → List (List Instr)
blocks head = instrs_or_none head.instrs ∷ head.next

-- Behind the last block, or in the place of `next` where `last` is NULL.
unfoldable pub extend_filter_block_list : FilterBlock → FilterBlock → FilterBlock
extend_filter_block_list list another = record {
  instrs = list.instrs;
  next = (if list.has_last then list.next else []) ++ blocks another;
  has_last = another.has_last;
  total_len = list.total_len + another.total_len;
}

unfoldable pub append_ret_kill : FilterBlock → Outcome FilterBlock
append_ret_kill head = append_filter_block head (set_bpf_ret_kill ∷ [])

unfoldable pub append_ret_kill_process : FilterBlock → Outcome FilterBlock
append_ret_kill_process head = append_filter_block head (set_bpf_ret_kill_process ∷ [])

unfoldable pub append_ret_trap : FilterBlock → Outcome FilterBlock
append_ret_trap head = append_filter_block head (set_bpf_ret_trap ∷ [])

unfoldable pub append_ret_errno : FilterBlock → ℕ → Outcome FilterBlock
append_ret_errno head errno_val = append_filter_block head (set_bpf_ret_errno errno_val ∷ [])

unfoldable pub append_ret_log : FilterBlock → Outcome FilterBlock
append_ret_log head = append_filter_block head (set_bpf_ret_log ∷ [])

unfoldable pub append_allow_syscall : FilterBlock → ℕ → Outcome FilterBlock
append_allow_syscall head nr = append_filter_block head (bpf_allow_syscall nr)

-- The inner loop of `flatten_block_list`: the buffer and the next index, none for -1.
unfoldable pub write_instrs : List Instr → List Instr → ℕ → ℕ → Option (List Instr × ℕ)
write_instrs [] filter index cap = some (filter, index)
write_instrs (i ∷ instrs) filter index cap =
    let rest = write_instrs instrs (set filter index i) (index + 1) cap in
    if leb cap index then none else rest

unfoldable pub flatten_blocks : List (List Instr) → List Instr → ℕ → ℕ → Option (List Instr)
flatten_blocks [] filter index cap = some filter
flatten_blocks (b ∷ bs) filter index cap = elim (write_instrs b filter index cap) [
  | none ↦ none
  | some (filter', index') ↦ flatten_blocks bs filter' index' cap
]

unfoldable pub flatten_block_list : FilterBlock → List Instr → ℕ → ℕ → Option (List Instr)
flatten_block_list head filter index cap = flatten_blocks (blocks head) filter index cap
