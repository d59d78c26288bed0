-- ===== src/Bpf/Dispatch.antt =====
-- The tests in front of the policy of a system call: `bpf_validate_arch`, `bpf_allow_syscall` and
-- `bpf_allow_syscall_args`, as `compile_file` and `compile_filter` put them into a program.
use minijail.Base.{
  ℕ, ◌+◌, ◌%◌, ◌^◌, List, [], ◌∷◌, ◌++◌, Option, some, if◌then◌else◌, ◌==◌, ==_iff, length, ◌≡◌,
  ◌≢◌, refl, ap, ◌∙◌, arith, append_assoc, Bool-cases, inl, inr,
}
use minijail.Bpf.{
  Instr, set_bpf_jump_lbl, set_bpf_ret_kill, arch_nr, syscall_nr, bpf_load_syscall_nr,
  bpf_validate_arch, bpf_allow_syscall, bpf_allow_syscall_args, lo_word, next, skip,
}
use minijail.Bpf.Machine.{
  Mode, Data, State, labelled, load, distance, exec, exec-ld_abs, exec-jeq, exec-ret, exec-jump_lbl,
  exec-length,
}
use minijail.Bpf.Ret

step_over :
    (m : Mode) (d : Data) (i : Instr) (p : List Instr) (s : State)
    → exec m d (i ∷ p) 1 s ≡ exec m d p 0 s
unfolding exec
step_over m d i p s = refl

load-arch : (d : Data) → load d (arch_nr % 2 ^ 32) ≡ some (lo_word d.arch)
unfolding load
load-arch d = refl

load-nr : (d : Data) → load d (syscall_nr % 2 ^ 32) ≡ some (lo_word d.nr)
unfolding load
load-nr d = refl

bpf_validate_arch-exec :
    (m : Mode) (d : Data) (arch : ℕ) (rest : List Instr) (s : State)
    → exec m d (bpf_validate_arch arch ++ rest) 0 s ≡ (
        if lo_word d.arch == arch % 2 ^ 32
        then exec m d rest 0 (record s { acc = lo_word d.arch })
        else some Ret.kill)
unfolding bpf_validate_arch
bpf_validate_arch-exec m d arch rest s =
    exec-ld_abs m d _ s arch_nr _ (load-arch d)
    ∙ exec-jeq m d _ (record s { acc = lo_word d.arch }) arch skip next
    ∙ elim (Bool-cases (lo_word d.arch == arch % 2 ^ 32)) [
      | inl same ↦ rw same (step_over m d set_bpf_ret_kill rest _)
      | inr other ↦ rw other (exec-ret m d rest _ Ret.kill)
    ]

bpf_allow_syscall-exec :
    (m : Mode) (d : Data) (nr : ℕ) (rest : List Instr) (s : State)
    → exec m d (bpf_allow_syscall nr ++ rest) 0 s
      ≡ (if s.acc == nr % 2 ^ 32 then some Ret.allow else exec m d rest 0 s)
unfolding bpf_allow_syscall
bpf_allow_syscall-exec m d nr rest s =
    exec-jeq m d _ s nr next skip ∙ elim (Bool-cases (s.acc == nr % 2 ^ 32)) [
      | inl same ↦ rw same (exec-ret m d rest s Ret.allow)
      | inr other ↦ rw other (step_over m d _ rest s)
    ]

bpf_allow_syscall_args-exec :
    (d : Data) (nr id n : ℕ) (rest : List Instr) (s : State)
    → distance (id % 2 ^ 32) rest ≡ some n
    → exec labelled d (bpf_allow_syscall_args nr id ++ rest) 0 s
      ≡ exec labelled d rest (if s.acc == nr % 2 ^ 32 then n else 0) s
unfolding bpf_allow_syscall_args
bpf_allow_syscall_args-exec d nr id n rest s at =
    exec-jeq labelled d _ s nr next skip ∙ elim (Bool-cases (s.acc == nr % 2 ^ 32)) [
      | inl same ↦ rw same (exec-jump_lbl d rest s id n at)
      | inr other ↦ rw other (step_over labelled d (set_bpf_jump_lbl id) rest s)
    ]

-- An entry of the jump table: a system call that is allowed, or one whose policy stands at a label.
pub data Entry : Type 0 where
  allowed : ℕ → Entry
  checked : ℕ → ℕ → Entry

abbrev pub entry_code : Entry → List Instr
entry_code (allowed nr) = bpf_allow_syscall nr
entry_code (checked nr id) = bpf_allow_syscall_args nr id

abbrev pub entries_code : List Entry → List Instr
entries_code [] = []
entries_code (e ∷ es) = entry_code e ++ entries_code es

-- The test of the architecture, the load of the number, and the entries.
abbrev pub head_code : ℕ → List Entry → List Instr
head_code arch es = bpf_validate_arch arch ++ (bpf_load_syscall_nr ∷ entries_code es)

-- The labels of the entries stand behind them, at `target`.
abbrev pub ArePlaced : (ℕ → ℕ) → List Instr → List Entry → Type 0
ArePlaced target rest [] = Unit
ArePlaced target rest (allowed nr ∷ es) = ArePlaced target rest es
ArePlaced target rest (checked nr id ∷ es) =
    (distance (id % 2 ^ 32) rest ≡ some (target id)) × ArePlaced target rest es

-- The first entry of the system call decides.
abbrev pub dispatched : (ℕ → ℕ) → Data → List Instr → State → List Entry → Option ℕ
dispatched target d rest s [] = exec labelled d rest 0 s
dispatched target d rest s (allowed nr ∷ es) =
    let later = dispatched target d rest s es in
    if lo_word d.nr == nr % 2 ^ 32 then some Ret.allow else later
dispatched target d rest s (checked nr id ∷ es) =
    let later = dispatched target d rest s es in
    if lo_word d.nr == nr % 2 ^ 32 then exec labelled d rest (target id) s else later

-- No entry places a label.
distance-entries :
    (es : List Entry) (k n : ℕ) (rest : List Instr)
    → distance k rest ≡ some n
    → distance k (entries_code es ++ rest) ≡ some (length (entries_code es) + n)
unfolding distance bpf_allow_syscall bpf_allow_syscall_args
distance-entries [] k n rest e = e ∙ ap some {x = n} {y = 0 + n} (omega arith)
distance-entries (allowed nr ∷ es) k n rest e =
    rw (distance-entries es k n rest e) (ap some (omega arith))
distance-entries (checked nr id ∷ es) k n rest e =
    rw (distance-entries es k n rest e) (ap some (omega arith))

entries-exec :
    (target : ℕ → ℕ) (d : Data) (rest : List Instr) (es : List Entry) (s : State)
    → s.acc ≡ lo_word d.nr
    → ArePlaced target rest es
    → exec labelled d (entries_code es ++ rest) 0 s ≡ dispatched target d rest s es
entries-exec target d rest [] s a placed = refl
entries-exec target d rest (allowed nr ∷ es) s a placed =
    ap (λ p. exec labelled d p 0 s) (append_assoc (bpf_allow_syscall nr) (entries_code es) rest)
    ∙ bpf_allow_syscall-exec labelled d nr (entries_code es ++ rest) s
    ∙ ap
        (λ (c : ℕ).
          if c == nr % 2 ^ 32
          then some Ret.allow
          else exec labelled d (entries_code es ++ rest) 0 s)
        a
    ∙ rw (entries-exec target d rest es s a placed) refl
entries-exec target d rest (checked nr id ∷ es) s a (here, placed) =
    let far = distance-entries es (id % 2 ^ 32) (target id) rest here in
    ap (λ p. exec labelled d p 0 s)
      (append_assoc (bpf_allow_syscall_args nr id) (entries_code es) rest)
    ∙ bpf_allow_syscall_args-exec d nr id _ (entries_code es ++ rest) s far
    ∙ ap
        (λ (c : ℕ).
          exec labelled d (entries_code es ++ rest)
            (if c == nr % 2 ^ 32 then length (entries_code es) + target id else 0) s)
        a
    ∙ elim (Bool-cases (lo_word d.nr == nr % 2 ^ 32)) [
      | inl same ↦ rw same (exec-length labelled d (entries_code es) rest (target id) s)
      | inr other ↦ rw other (entries-exec target d rest es s a placed)
    ]

-- A program that begins with the test of the architecture, the load of the number and entries, any
-- number of them in any order: it kills on every architecture but its own. On its own the first
-- entry of the system call decides: it is allowed, or the run goes on at its label. A call without
-- an entry goes on behind the entries. The labels stand behind the entries.
pub dispatch-exec :
    (target : ℕ → ℕ) (d : Data) (arch : ℕ) (es : List Entry) (rest : List Instr) (s : State)
    → ArePlaced target rest es
    → exec labelled d (head_code arch es ++ rest) 0 s ≡ (
        if lo_word d.arch == arch % 2 ^ 32
        then dispatched target d rest (record s { acc = lo_word d.nr }) es
        else some Ret.kill)
dispatch-exec target d arch es rest s placed =
    let s₁ = record s { acc = lo_word d.arch } in
    let s₂ = record s { acc = lo_word d.nr } in
    let named = exec-ld_abs labelled d (entries_code es ++ rest) s₁ syscall_nr _ (load-nr d) in
    ap (λ p. exec labelled d p 0 s)
      (append_assoc (bpf_validate_arch arch) (bpf_load_syscall_nr ∷ entries_code es) rest)
    ∙ bpf_validate_arch-exec labelled d arch _ s
    ∙ rw (named, entries-exec target d rest es s₂ refl placed) refl

-- What the test of the architecture does in front of any code.
pub foreign-exec :
    (m : Mode) (d : Data) (arch : ℕ) (rest : List Instr) (s : State)
    → lo_word d.arch ≢ arch % 2 ^ 32
    → exec m d (bpf_validate_arch arch ++ rest) 0 s ≡ some Ret.kill
foreign-exec m d arch rest s foreign =
    bpf_validate_arch-exec m d arch rest s ∙ elim (Bool-cases (lo_word d.arch == arch % 2 ^ 32)) [
      | inl same ↦ absurd (foreign ((==_iff _ _).0 same))
      | inr other ↦ rw other refl
    ]
