-- ===== src/Filter/Line.antt =====
-- One line of a policy: `str_to_op`, `compile_atom`, `compile_errno` and `compile_policy_line`.
pub mod Code
pub mod Run
pub mod Compile
pub mod Meaning
pub mod Default
pub mod Verdict
use minijail.Base.{
  ℕ, zero, suc, ◌+◌, ◌-◌, ◌%◌, ◌^◌, Bool, true, false, not, ◌&&◌, List, [], ◌∷◌, ◌++◌, Option, none,
  some, if◌then◌else◌, ◌==◌, drop, Bytes, codes, streq, starts_with,
}
use minijail.Bpf.{Instr, Op, bpf_arg_comp, set_bpf_lbl, set_bpf_jump_lbl, set_bpf_ret_allow}
use minijail.Bpf.Labels.{Labels}
use minijail.Filter.Blocks.{
  FilterBlock, new_filter_block, append_filter_block, append_ret_kill, append_ret_kill_process,
  append_ret_trap, append_ret_errno, append_ret_log,
}
use minijail.Filter.Names.{group_end_lbl, success_lbl}
use minijail.Filter.Outcome.{Outcome, done, fail, die, ◌>>=◌}
use minijail.Util.Constant.{Parsed, parsed, failed, out_of_fuel, parse_constant}
use minijail.Util.Number.{strtol, Conversion}
use minijail.Util.Syscall.{ConstantEntry}
use minijail.Util.Text.{strtok, tokenize_all}

-- enum block_action
pub data BlockAction : Type 0 where
  ret_kill ret_trap ret_log ret_kill_process : BlockAction

-- `invalid` is the 0 of the source.
unfoldable pub str_to_op : Bytes → Op
str_to_op op_str =
    if streq op_str (codes "==")
    then Op.eq
    else if streq op_str (codes "!=")
    then Op.ne
    else if streq op_str (codes "<")
    then Op.lt
    else if streq op_str (codes "<=")
    then Op.le
    else if streq op_str (codes ">")
    then Op.gt
    else if streq op_str (codes ">=")
    then Op.ge
    else if streq op_str (codes "&")
    then Op.set
    else if streq op_str (codes "in")
    then Op.in_mask
    else Op.invalid

-- What the text of an atom says: `arg{argidx} {op} {constant}`.
pub record Atom : Type 0 where
  pub op : Op
  pub argidx : ℕ
  pub constant : ℕ

-- An `*endptr` that moved means a value.
abbrev pub constant_value : Parsed → Option ℕ
constant_value (parsed v) = some v
constant_value failed = none
constant_value out_of_fuel = none

-- `op < MIN_OPERATOR`
abbrev pub is_operator : Op → Bool
is_operator Op.invalid = false
is_operator _ = true

-- The number behind "arg", none unless it is there and ends the word.
unfoldable pub parse_argidx : Bytes → Option ℕ
parse_argidx argidx_str =
    if not (starts_with (codes "arg") argidx_str)
    then none
    else let digits = drop 3 argidx_str in
      let r = strtol 10 digits in
      elim digits [ [] ↦ none | _ ∷ _ ↦ elim r.rest [ [] ↦ some r.value | _ ∷ _ ↦ none ] ]

-- The three words of an atom, none if one is missing or if there is a fourth.
unfoldable pub split_atom : Bytes → Option (Bytes × Bytes × Bytes)
split_atom atom = elim (strtok b' ' atom) [
  | none ↦ none
  | some (argidx_str, rest) ↦ elim (strtok b' ' rest) [
    | none ↦ none
    | some (operator_str, rest') ↦ elim (strtok b' ' rest') [
      | none ↦ none
      | some (constant_str, rest'') ↦ elim (strtok b' ' rest'') [
        | some extra ↦ none
        | none ↦ some (argidx_str, operator_str, constant_str)
      ]
    ]
  ]
]

module _ (table : List ConstantEntry) where
  -- The checks of `compile_atom`, in order. `argidx` becomes an int and the constant an unsigned
  -- long when they are passed on.
  unfoldable pub parse_atom : Bytes → Option Atom
  parse_atom atom = elim (split_atom atom) [
    | none ↦ none
    | some (argidx_str, operator_str, constant_str) ↦ elim (parse_argidx argidx_str) [
      | none ↦ none
      | some argidx ↦
          if not (is_operator (str_to_op operator_str))
          then none
          else elim (constant_value (parse_constant table constant_str)) [
            | none ↦ none
            | some c ↦ some (record {
              op = str_to_op operator_str;
              argidx = argidx % 2 ^ 32;
              constant = c % 2 ^ 64;
            })
          ]
    ]
  ]

  unfoldable pub compile_atom :
      FilterBlock → Bytes → Labels → ℕ → ℕ → Outcome (FilterBlock × Labels)
  compile_atom head atom labels nr grp_idx = elim (parse_atom atom) [
    | none ↦ fail
    | some a ↦ do
      (labels', id) ← group_end_lbl labels nr grp_idx
      elim (bpf_arg_comp a.op a.argidx a.constant id) [
        | [] ↦ fail
        | i ∷ comp_block ↦
            append_filter_block head (i ∷ comp_block) >>= λ head'. done (head', labels')
      ]
  ]

  -- The switch on `action` where `compile_errno` finds no value.
  unfoldable pub append_action : FilterBlock → BlockAction → Outcome FilterBlock
  append_action head ret_kill = append_ret_kill head
  append_action head ret_kill_process = append_ret_kill_process head
  append_action head ret_trap = append_ret_trap head
  append_action head ret_log = fail

  unfoldable pub compile_errno : FilterBlock → Bytes → BlockAction → Outcome FilterBlock
  compile_errno head ret_errno action = elim (strtok b' ' ret_errno) [
    | none ↦ fail
    | some (ret_str, rest) ↦
        if not (starts_with (codes "return") ret_str) then fail else elim (strtok b' ' rest) [
          | none ↦ append_action head action
          | some (errno_val_str, _) ↦ elim (constant_value (parse_constant table errno_val_str)) [
            | none ↦ fail
            | some e ↦ if e % 2 ^ 32 == 2 ^ 32 - 1 then fail else append_ret_errno head (e % 2 ^ 32)
          ]
        ]
  ]

  -- The inner loop of `compile_policy_line`: the atoms of one group.
  unfoldable pub compile_atoms :
      FilterBlock → List Bytes → Labels → ℕ → ℕ → Outcome (FilterBlock × Labels)
  compile_atoms head [] labels nr grp_idx = done (head, labels)
  compile_atoms head (comp ∷ comps) labels nr grp_idx = do
    (head', labels') ← compile_atom head comp labels nr grp_idx
    compile_atoms head' comps labels' nr grp_idx

  -- The body of the outer loop.
  unfoldable pub compile_group :
      FilterBlock → Bytes → Labels → ℕ → ℕ → Outcome (FilterBlock × Labels)
  compile_group head group labels nr grp_idx = do
    (head', labels₁) ← compile_atoms head (tokenize_all (some group) (codes "&&")) labels nr grp_idx
    (labels₂, success) ← success_lbl labels₁ nr
    (labels₃, group_end) ← group_end_lbl labels₂ nr grp_idx
    head'' ← append_filter_block head' (set_bpf_jump_lbl success ∷ set_bpf_lbl group_end ∷ [])
    done (head'', labels₃)

  unfoldable pub compile_groups :
      FilterBlock → List Bytes → Labels → ℕ → ℕ → Outcome (FilterBlock × Labels)
  compile_groups head [] labels nr grp_idx = done (head, labels)
  compile_groups head (group ∷ groups) labels nr grp_idx = do
    (head', labels') ← compile_group head group labels nr grp_idx
    compile_groups head' groups labels' nr (grp_idx + 1)

  -- What runs if no group holds.
  unfoldable pub append_default : FilterBlock → Option Bytes → BlockAction → Outcome FilterBlock
  append_default head (some ret_errno) action = compile_errno head ret_errno action
  append_default head none ret_kill = append_ret_kill head
  append_default head none ret_kill_process = append_ret_kill_process head
  append_default head none ret_trap = append_ret_trap head
  append_default head none ret_log = append_ret_log head

  -- `arg_filter` and `ret_errno` of a line.
  unfoldable pub split_line : Bytes → Option Bytes × Option Bytes
  split_line line = elim (strtok b';' line) [
    | none ↦ (none, none)
    | some (arg_filter, rest) ↦ elim (strtok b';' rest) [
      | none ↦ (some arg_filter, none)
      | some (ret_errno, _) ↦ (some arg_filter, some ret_errno)
    ]
  ]

  unfoldable pub entry_block : ℕ → Outcome FilterBlock
  entry_block entry_lbl_id = append_filter_block new_filter_block (set_bpf_lbl entry_lbl_id ∷ [])

  -- The part of a line that is not an unconditional "return".
  unfoldable pub compile_filter_line :
      ℕ → Bytes → ℕ → Labels → BlockAction → Outcome (FilterBlock × Labels)
  compile_filter_line nr line entry_lbl_id labels action = do
    let (arg_filter, ret_errno) = split_line line
    head ← entry_block entry_lbl_id
    (head₁, labels₁) ← compile_groups head (tokenize_all arg_filter (codes "||")) labels nr 0
    head₂ ← append_default head₁ ret_errno action
    (labels₂, success) ← success_lbl labels₁ nr
    head₃ ← append_filter_block head₂ (set_bpf_lbl success ∷ set_bpf_ret_allow ∷ [])
    done (head₃, labels₂)

  unfoldable pub compile_policy_line :
      ℕ → Bytes → ℕ → Labels → BlockAction → Outcome (FilterBlock × Labels)
  compile_policy_line nr [] entry_lbl_id labels action = fail
  compile_policy_line nr (c ∷ s) entry_lbl_id labels action =
      if starts_with (codes "return") (c ∷ s)
      then (entry_block entry_lbl_id >>= λ head.
          compile_errno head (c ∷ s) action >>= λ head'. done (head', labels))
      else compile_filter_line nr (c ∷ s) entry_lbl_id labels action
