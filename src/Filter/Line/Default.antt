-- ===== src/Filter/Line/Default.antt =====
-- What a line gives to a system call for which no group holds: `compile_errno` and the default.
use minijail.Base.{
  ℕ, ◌+◌, ◌-◌, ◌%◌, ◌^◌, List, [], ◌∷◌, Option, none, some, if◌then◌else◌, ◌==◌, Bytes, codes, ◌≡◌,
  sym, ap, ◌∙◌, arith, Bool-cases, Option-cases, inl, inr, starts_with,
}
use minijail.Bpf.{set_bpf_stmt, set_bpf_ret_errno}
use minijail.Bpf.Code
use minijail.Bpf.Ret
use minijail.Filter.Blocks.{
  FilterBlock, append_filter_block, append_ret_kill, append_ret_kill_process, append_ret_trap,
  append_ret_errno, append_ret_log,
}
use minijail.Filter.Line.{
  BlockAction, ret_kill, ret_trap, ret_log, ret_kill_process, constant_value, append_action,
  compile_errno, append_default,
}
use minijail.Filter.Outcome.{Outcome, done, fail}
use minijail.Util.Constant.{parse_constant}
use minijail.Util.Syscall.{ConstantEntry}
use minijail.Util.Text.{strtok}

-- The verdict that an action stands for, and that of `return {NUM}`.
abbrev pub action_ret : BlockAction → ℕ
action_ret ret_kill = Ret.kill
action_ret ret_kill_process = Ret.kill_process
action_ret ret_trap = Ret.trap
action_ret ret_log = Ret.log

abbrev pub errno_ret : ℕ → ℕ
errno_ret e = Ret.errno_base + e % 2 ^ 16

abbrev value_ret : Option ℕ → ℕ
value_ret none = 0
value_ret (some e) = errno_ret e

module _ (table : List ConstantEntry) where
  -- The number behind "return", if there is a second word.
  abbrev pub errno_word : Option (Bytes × Bytes) → BlockAction → ℕ
  errno_word none action = action_ret action
  errno_word (some (errno_val_str, _)) action =
      value_ret (constant_value (parse_constant table errno_val_str))

  abbrev pub return_ret : Option (Bytes × Bytes) → BlockAction → ℕ
  return_ret none action = 0
  return_ret (some (_, rest)) action = errno_word (strtok b' ' rest) action

  -- The verdict of a system call for which no group holds.
  abbrev pub default_ret : Option Bytes → BlockAction → ℕ
  default_ret none action = action_ret action
  default_ret (some ret_errno) action = return_ret (strtok b' ' ret_errno) action

  abbrev pub ret_block : FilterBlock → ℕ → Outcome FilterBlock
  ret_block head k = append_filter_block head (set_bpf_stmt Code.ret k ∷ [])

  append_action-done :
      (head : FilterBlock) (action : BlockAction) {head' : FilterBlock}
      → append_action table head action ≡ done head'
      → ret_block head (action_ret action) ≡ done head'
  unfolding append_action append_ret_kill append_ret_kill_process append_ret_trap
  append_action-done head ret_kill e = e
  append_action-done head ret_kill_process e = e
  append_action-done head ret_trap e = e
  append_action-done head ret_log e = cc

  errno_instr : (e : ℕ) → set_bpf_ret_errno (e % 2 ^ 32) ≡ set_bpf_stmt Code.ret (errno_ret e)
  errno_instr e =
      ap (λ k. set_bpf_stmt Code.ret k) {x = Ret.errno_base + e % 2 ^ 32 % 2 ^ 16} {y = errno_ret e}
        (omega arith)

  errno_word-done :
      (head : FilterBlock) (word : Option (Bytes × Bytes)) (action : BlockAction)
      {head' : FilterBlock}
      → (elim word [
        | none ↦ append_action table head action
        | some (errno_val_str, _) ↦ elim (constant_value (parse_constant table errno_val_str)) [
          | none ↦ fail
          | some e ↦ if e % 2 ^ 32 == 2 ^ 32 - 1 then fail else append_ret_errno head (e % 2 ^ 32)
        ]
      ])
        ≡ done head'
      → ret_block head (errno_word word action) ≡ done head'
  unfolding append_ret_errno
  errno_word-done head none action e = append_action-done head action e
  errno_word-done head (some (text, _)) action e =
      elim (Option-cases (constant_value (parse_constant table text))) [
        | inl absent ↦ absurd (cc (rw absent at e))
        | inr (v, value) ↦
            let e₁ = rw value at e in
            elim (Bool-cases (v % 2 ^ 32 == 2 ^ 32 - 1)) [
              | inl minus_one ↦ absurd (cc (rw minus_one at e₁))
              | inr other ↦
                  ap (λ o. ret_block head (value_ret o)) value
                  ∙ ap (λ i. append_filter_block head (i ∷ [])) (sym (errno_instr v))
                  ∙ (rw other at e₁)
            ]
      ]

  pub compile_errno-done :
      (head : FilterBlock) (text : Bytes) (action : BlockAction) {head' : FilterBlock}
      → compile_errno table head text action ≡ done head'
      → ret_block head (default_ret (some text) action) ≡ done head'
  unfolding compile_errno
  compile_errno-done head text action e = elim (Option-cases (strtok b' ' text)) [
    | inl absent ↦ absurd (cc (rw (absent, compile_errno) at e))
    | inr ((ret_str, rest), first) ↦
        let e₁ = rw (first, compile_errno) at e in
        elim (Bool-cases (starts_with (codes "return") ret_str)) [
          | inr other ↦ absurd (cc (rw other at e₁))
          | inl keyword ↦
              ap (λ w. ret_block head (return_ret w action)) first
              ∙ errno_word-done head (strtok b' ' rest) action (rw keyword at e₁)
        ]
  ]

  pub append_default-done :
      (head : FilterBlock) (ret_errno : Option Bytes) (action : BlockAction) {head' : FilterBlock}
      → append_default table head ret_errno action ≡ done head'
      → ret_block head (default_ret ret_errno action) ≡ done head'
  unfolding append_default append_ret_kill append_ret_kill_process append_ret_trap append_ret_log
  append_default-done head (some text) action e = compile_errno-done head text action e
  append_default-done head none ret_kill e = e
  append_default-done head none ret_kill_process e = e
  append_default-done head none ret_trap e = e
  append_default-done head none ret_log e = e
