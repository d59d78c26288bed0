-- ===== src/Filter/File/Foreign.antt =====
-- The program of a policy and a call of another architecture: the test of the architecture stays in
-- front through all that `compile_filter` does.
use minijail.Base.{
  ℕ, zero, suc, ◌+◌, ◌≤◌, ◌%◌, ◌^◌, false, List, [], ◌∷◌, ◌++◌, Option, none, some, ◌==◌, leb, ltb,
  length, set, Bytes, ◌≡◌, ◌≢◌, refl, sym, ap, ◌∙◌, arith, append_assoc, Bool-cases, Option-cases,
  inl, inr, some_inj,
}
use mathlib.Core.Path.{subst}
use minijail.Bpf.{Instr, lo_word, bpf_validate_arch, bpf_load_syscall_nr}
use minijail.Bpf.Code
use minijail.Bpf.Dispatch.{entries_code, foreign-exec}
use minijail.Bpf.Labels.{Labels, ok, resolve_instr, resolve_from, bpf_resolve_jumps, bpf_maxinsns}
use minijail.Bpf.Labels.Placed.{All}
use minijail.Bpf.Labels.Resolve.{resolve_from-Walked}
use minijail.Bpf.Machine.{Data, State, kernel, exec}
use minijail.Bpf.Ret
use minijail.Filter.Blocks.{
  FilterBlock, blocks, append_filter_block, append_ret_kill, append_ret_kill_process,
  append_ret_trap, append_ret_log, write_instrs, flatten_blocks, flatten_block_list,
}
use minijail.Filter.Blocks.Flatten.{code}
use minijail.Filter.Blocks.Linked.{IsLinked, appended}
use minijail.Filter.File.{
  FilterOptions, File, blocks_or_none, zeros, append_fall_through, compile_entries, link, linked,
  compile_filter,
}
use minijail.Filter.File.Link.{flatten-head, linked-done}
use minijail.Filter.File.Table.{compile_entries-HasTable}
use minijail.Filter.Line.{BlockAction, ret_kill, ret_kill_process, ret_trap, ret_log}
use minijail.Filter.Outcome.{done, >>=-eq-done}
use minijail.Util.Syscall.{SyscallEntry, ConstantEntry}

-- A list that begins with `front`.
abbrev Begins : List Instr → List Instr → Type 0
Begins front p = (rest : List Instr) × (p ≡ front ++ rest)

set-Begins :
    (front rest : List Instr) (index : ℕ) (i : Instr)
    → length front ≤ index
    → Begins front (set (front ++ rest) index i)
set-Begins [] rest index i h = (set rest index i, refl)
set-Begins (x ∷ front) rest zero i h = absurd (omega (arith, h))
set-Begins (x ∷ front) rest (suc index) i h =
    let (rest', e) = set-Begins front rest index i (omega (arith, h)) in (rest', ap (◌∷◌ x) e)

module _ (front : List Instr) (cap : ℕ) where
  write_instrs-Begins :
      (instrs filter : List Instr) (index : ℕ) {r : List Instr × ℕ}
      → length front ≤ index
      → Begins front filter
      → write_instrs instrs filter index cap ≡ some r
      → Begins front r.0 × (length front ≤ r.1)
  unfolding write_instrs
  write_instrs-Begins [] filter index h b e =
      subst (λ (r : List Instr × ℕ). Begins front r.0 × (length front ≤ r.1)) (some_inj e) (b, h)
  write_instrs-Begins (i ∷ instrs) filter index h (rest, b) e = elim (Bool-cases (leb cap index)) [
    | inl full ↦ absurd (cc (rw full at e))
    | inr room ↦
        write_instrs-Begins instrs (set filter index i) (index + 1) (omega (arith, h))
          (rw b (set-Begins front rest index i h)) (rw room at e)
  ]

  flatten_blocks-Begins :
      (bs : List (List Instr)) (filter : List Instr) (index : ℕ) {filter' : List Instr}
      → length front ≤ index
      → Begins front filter
      → flatten_blocks bs filter index cap ≡ some filter'
      → Begins front filter'
  unfolding flatten_blocks
  flatten_blocks-Begins [] filter index h b e = subst (Begins front) (some_inj e) b
  flatten_blocks-Begins (instrs ∷ bs) filter index h b e =
      elim (Option-cases (write_instrs instrs filter index cap)) [
        | inl full ↦ absurd (cc (rw (full, flatten_blocks) at e))
        | inr (r, wrote) ↦
            let (b', h') = write_instrs-Begins instrs filter index h b wrote in
            flatten_blocks-Begins bs r.0 r.1 h' b' (rw (wrote, flatten_blocks) at e)
      ]

flatten_block_list-Begins :
    (front : List Instr) (cap : ℕ) (head : FilterBlock) (rest : List Instr) (index : ℕ)
    (filter' : List Instr)
    → length front ≤ index
    → flatten_block_list head (front ++ rest) index cap ≡ some filter'
    → Begins front filter'
unfolding flatten_block_list
flatten_block_list-Begins front cap head rest index filter' h e =
    flatten_blocks-Begins front cap (blocks head) (front ++ rest) index h (rest, refl) e

-- Neither a label nor a jump.
abbrev IsPlain : Instr → Type 0
IsPlain i = (i.code == Code.ja) ≡ false

resolve_instr-IsPlain :
    (labels : Labels) (offset : ℕ) (i : Instr)
    → IsPlain i
    → resolve_instr labels offset i ≡ ok (labels, i)
unfolding resolve_instr
resolve_instr-IsPlain labels offset i h = rw h refl

resolve_from-Begins :
    (front rest : List Instr) (labels labels' : Labels) (offset : ℕ) (q : List Instr)
    → All IsPlain front
    → resolve_from labels offset (front ++ rest) ≡ ok (labels', q)
    → Begins front q
resolve_from-Begins [] rest labels labels' offset q plain e = (q, refl)
resolve_from-Begins (i ∷ front) rest labels labels' offset q (here, plain) e =
    let w = resolve_from-Walked labels offset i (front ++ rest) labels' q e in
    let (q', b) =
      resolve_from-Begins front rest labels w.labels₁ (offset + 1) w.p₁ plain w.behind in
    let same : i ≡ w.i' = cc (sym (resolve_instr-IsPlain w.labels₁ offset i here) ∙ w.here) in
    (q', sym w.shape ∙ ap (λ x. x ∷ w.p₁) (sym same) ∙ ap (◌∷◌ i) b)

tests-IsPlain : (arch : ℕ) → All IsPlain (bpf_validate_arch arch)
unfolding bpf_validate_arch
tests-IsPlain arch = (refl, (refl, (refl, tt)))

module _ (syscall_table : List SyscallEntry) (constant_table : List ConstantEntry)
    (fopen : Bytes → Option File) (filteropts : FilterOptions) (arch : ℕ) where
  -- The list of the head after one more block.
  more-Begins :
      (head head' : FilterBlock) (instrs : List Instr)
      → IsLinked head
      → append_filter_block head instrs ≡ done head'
      → IsLinked head' × Begins (code head) (code head')
  more-Begins head head' instrs linked e =
      let (linked', _, longer) = appended head instrs linked e in (linked', (instrs, longer))

  append_fall_through-Begins :
      (head head' : FilterBlock) (action : BlockAction)
      → IsLinked head
      → append_fall_through syscall_table constant_table fopen filteropts head action ≡ done head'
      → IsLinked head' × Begins (code head) (code head')
  unfolding append_fall_through append_ret_kill append_ret_kill_process append_ret_trap
      append_ret_log
  append_fall_through-Begins head head' ret_kill l e = more-Begins head head' _ l e
  append_fall_through-Begins head head' ret_kill_process l e = more-Begins head head' _ l e
  append_fall_through-Begins head head' ret_trap l e = more-Begins head head' _ l e
  append_fall_through-Begins head head' ret_log l e = elim (Bool-cases filteropts.allow_logging) [
    | inl log ↦ more-Begins head head' _ l (rw log at e)
    | inr off ↦ absurd (cc (rw off at e))
  ]

  resolved-Begins :
      (front rest : List Instr) (labels labels' : Labels) (q : List Instr)
      → All IsPlain front
      → bpf_resolve_jumps labels (front ++ rest) ≡ ok (labels', q)
      → Begins front q
  unfolding bpf_resolve_jumps
  resolved-Begins front rest labels labels' q plain e =
      elim (Bool-cases (ltb bpf_maxinsns (length (front ++ rest)))) [
        | inl long ↦ absurd (cc (rw long at e))
        | inr short ↦ resolve_from-Begins front rest labels labels' 0 q plain (rw short at e)
      ]

  link-Begins :
      (front : List Instr) (head arg_blocks : FilterBlock) (labels : Labels) (p : List Instr)
      → All IsPlain front
      → IsLinked head
      → Begins front (code head)
      → link syscall_table constant_table fopen filteropts head arg_blocks labels ≡ done p
      → Begins front p
  unfolding link
  link-Begins front head arg_blocks labels p plain linked (more, b) e =
      let n = head.total_len + arg_blocks.total_len in
      elim (Bool-cases (ltb bpf_maxinsns n)) [
        | inl long ↦ absurd (cc (rw (long, link) at e))
        | inr short ↦
            let e₁ =
              rw (short, link, flatten-head head arg_blocks.total_len linked.measured) at e in
            elim (Option-cases (
              flatten_block_list arg_blocks (code head ++ zeros arg_blocks.total_len) head.total_len
                n)) [
                  | inl full ↦ absurd (cc (rw full at e₁))
                  | inr (q, filled) ↦
                      let (rest, whole) =
                        flatten_block_list-Begins (code head) n arg_blocks
                          (zeros arg_blocks.total_len) head.total_len q
                          (omega (arith, linked.measured)) filled in
                      let q_is : q ≡ front ++ (more ++ rest) =
                        whole ∙ ap (λ c. c ++ rest) b ∙ append_assoc front more rest in
                      let (labels', resolves) = linked-done _ (rw filled at e₁) in
                      resolved-Begins front (more ++ rest) labels labels' p plain
                        (rw q_is at resolves)
                ]
      ]

  -- A policy that compiles gives a program that kills every call of another architecture, whatever
  -- the policy and the files that it includes say, and whatever the tables are: the kernel runs the
  -- program that compile_filter returns, with its jumps resolved.
  pub compile_filter-kills :
      (name : Bytes) (file : Option File) (p : List Instr) (d : Data) (s : State)
      → compile_filter syscall_table constant_table fopen filteropts arch name file ≡ done p
      → lo_word d.arch ≢ arch % 2 ^ 32
      → exec kernel d p 0 s ≡ some Ret.kill
  unfolding compile_filter
  compile_filter-kills name none p d s e foreign = cc
  compile_filter-kills name (some file) p d s e foreign =
      let (c, e₁, compiled) =
        >>=-eq-done (compile_entries syscall_table constant_table fopen filteropts arch name file) _
          e in
      let (head, e₂, ended) =
        >>=-eq-done
          (append_fall_through syscall_table constant_table fopen filteropts c.head
            filteropts.action)
          _ e₁ in
      let table =
        compile_entries-HasTable arch syscall_table constant_table fopen filteropts name file c
          compiled in
      let (linked, (added, longer)) =
        append_fall_through-Begins c.head head filteropts.action table.linked ended in
      let tests = bpf_validate_arch arch in
      let behind = bpf_load_syscall_nr ∷ entries_code table.entries in
      let begins : Begins tests (code head) = (
        behind ++ added,
        longer ∙ ap (λ x. x ++ added) table.shape ∙ append_assoc tests behind added,
      ) in
      let (rest, whole) =
        link-Begins tests head (blocks_or_none c.arg_blocks) c.labels p (tests-IsPlain arch) linked
          begins e₂ in
      ap (λ q. exec kernel d q 0 s) whole ∙ foreign-exec kernel d arch rest s foreign
