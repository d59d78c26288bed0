-- ===== src/Filter/Line/Run.antt =====
-- What the code of a policy line does when it runs, read with its labels.
use minijail.Base.{
  ℕ, suc, ◌%◌, ◌^◌, ◌<◌, Bool, true, false, ◌&&◌, ◌||◌, List, [], ◌∷◌, ◌++◌, some, if◌then◌else◌,
  ◌≡◌, ◌≢◌, refl, ◌∙◌, arith, append_assoc, Bool-cases, inl, inr,
}
use minijail.Bpf.{Instr, Op, set_bpf_lbl, set_bpf_jump_lbl}
use minijail.Bpf.ArgComp.{holds, bpf_arg_comp-holds}
use minijail.Bpf.Machine.{
  Data, State, labelled, exec, distance, is_lbl, exec-length, exec-lbl, exec-jump_lbl, loaded,
}
use minijail.Filter.Line.{Atom}
use minijail.Filter.Line.Code.{
  atoms_code, groups_code, atoms_code-NoLabels, distance-NoLabels, Apart, distance-groups,
}

-- What an atom, a group and a line ask of a system call.
abbrev pub atom_holds : Data → Atom → Bool
atom_holds d a = holds a.op (d.args a.argidx) a.constant

abbrev pub group_holds : Data → List Atom → Bool
group_holds d [] = true
group_holds d (a ∷ atoms) = atom_holds d a && group_holds d atoms

abbrev pub any_holds : Data → List (ℕ × List Atom) → Bool
any_holds d [] = false
any_holds d ((_, atoms) ∷ groups) = group_holds d atoms || any_holds d groups

-- A valid operator, an argument that exists and an unsigned long.
pub record IsAtom (a : Atom) : Type 0 where
  pub valid : a.op ≢ Op.invalid
  pub exists : a.argidx < 6
  pub fits : a.constant < 2 ^ 64

abbrev pub AreAtoms : List Atom → Type 0
AreAtoms [] = Unit
AreAtoms (a ∷ atoms) = IsAtom a × AreAtoms atoms

abbrev pub AllGroups : List (ℕ × List Atom) → Type 0
AllGroups [] = Unit
AllGroups ((_, atoms) ∷ groups) = AreAtoms atoms × AllGroups groups

-- The arguments of a system call are 64-bit numbers.
abbrev pub IsData : Data → Type 0
IsData d = (i : ℕ) → i < 6 → d.args i < 2 ^ 64

step_over :
    (d : Data) (i : Instr) (p : List Instr) (k : ℕ) (s : State)
    → exec labelled d (i ∷ p) (suc k) s ≡ exec labelled d p k s
unfolding exec
step_over d i p k s = refl

distance-end :
    (success id : ℕ) (q : List Instr) {n : ℕ}
    → id % 2 ^ 32 ≢ success % 2 ^ 32
    → distance (success % 2 ^ 32) q ≡ some n
    → distance (success % 2 ^ 32) (set_bpf_lbl id ∷ q) ≡ some (suc n)
unfolding distance
distance-end success id q h e = ground arith

distance-mid :
    (id : ℕ) (mid : Instr) (rest : List Instr)
    → is_lbl mid ≡ false
    → distance (id % 2 ^ 32) (mid ∷ set_bpf_lbl id ∷ rest) ≡ some 1
unfolding distance
distance-mid id mid rest m = ground arith

-- A jump to the end of a group passes over its atoms and over what stands behind them.
jump-group_end :
    (d : Data) (id : ℕ) (atoms : List Atom) (mid : Instr) (rest : List Instr) (s : State)
    → is_lbl mid ≡ false
    → exec labelled d
        (set_bpf_jump_lbl id ∷ (atoms_code id atoms ++ (mid ∷ set_bpf_lbl id ∷ rest)))
        0
        s
      ≡ exec labelled d rest 0 s
jump-group_end d id atoms mid rest s m =
    let behind = mid ∷ set_bpf_lbl id ∷ rest in
    exec-jump_lbl d _ s id _ (
      distance-NoLabels _ (atoms_code id atoms) behind (atoms_code-NoLabels id atoms)
        (distance-mid id mid rest m))
    ∙ exec-length labelled d (atoms_code id atoms) behind 1 s
    ∙ step_over d mid (set_bpf_lbl id ∷ rest) 0 s
    ∙ exec-lbl d rest s id

module _ (d : Data) (d_fits : IsData d) where
  -- A group goes on to the instruction behind its atoms if they all hold, and behind its end
  -- otherwise.
  atoms_code-exec :
      (id : ℕ) (atoms : List Atom) (mid : Instr) (rest : List Instr) (s : State)
      → AreAtoms atoms
      → is_lbl mid ≡ false
      → (s' : State) × (exec labelled d (atoms_code id atoms ++ (mid ∷ set_bpf_lbl id ∷ rest)) 0 s
          ≡ (if group_holds d atoms
              then exec labelled d (mid ∷ set_bpf_lbl id ∷ rest) 0 s'
              else exec labelled d rest 0 s'))
  unfolding atoms_code
  atoms_code-exec id [] mid rest s h m = (s, refl)
  atoms_code-exec id (a ∷ atoms) mid rest s (h, hs) m =
      let code = atoms_code id atoms ++ (mid ∷ set_bpf_lbl id ∷ rest) in
      let (acc', ran) =
        bpf_arg_comp-holds labelled d a.argidx s a.constant h.exists (d_fits a.argidx h.exists)
          h.fits a.op id code h.valid in
      let s₁ = record (loaded d a.argidx s) { acc = acc' } in
      let (s₂, later) = atoms_code-exec id atoms mid rest s₁ hs m in
      elim (Bool-cases (atom_holds d a)) [
        | inl yes_holds ↦
            (s₂, rw append_assoc (ran ∙ rw yes_holds (step_over d _ code 0 s₁ ∙ later)))
        | inr fails ↦
            (s₁, rw append_assoc (ran ∙ rw fails (jump-group_end d id atoms mid rest s₁ m)))
      ]

  module _ (success : ℕ) (tail : List Instr) (n accept reject : ℕ)
      (at : distance (success % 2 ^ 32) tail ≡ some n)
      (accepts : (s : State) → exec labelled d tail n s ≡ some accept)
      (rejects : (s : State) → exec labelled d tail 0 s ≡ some reject) where
    -- A jump to the success label in front of the end of a group.
    jump-success :
        (id : ℕ) (groups : List (ℕ × List Atom)) (s : State)
        → id % 2 ^ 32 ≢ success % 2 ^ 32
        → Apart success groups
        → exec labelled d
            (set_bpf_jump_lbl success ∷ set_bpf_lbl id ∷ (groups_code success groups ++ tail))
            0
            s
          ≡ some accept
    jump-success id groups s ne apart =
        let found = distance-groups success groups tail apart at in
        exec-jump_lbl d _ s success _ (distance-end success id _ ne found)
        ∙ step_over d (set_bpf_lbl id) _ _ s
        ∙ exec-length labelled d (groups_code success groups) tail n s
        ∙ accepts s

    -- The groups in front of `tail` accept if one of them holds, and reject otherwise.
    pub groups_code-exec :
        (groups : List (ℕ × List Atom)) (s : State)
        → AllGroups groups
        → Apart success groups
        → exec labelled d (groups_code success groups ++ tail) 0 s
          ≡ some (if any_holds d groups then accept else reject)
    unfolding groups_code
    groups_code-exec [] s h apart = rejects s
    groups_code-exec ((id, atoms) ∷ groups) s (h, hs) (ne, apart) =
        let behind = groups_code success groups ++ tail in
        let (s', ran) = atoms_code-exec id atoms (set_bpf_jump_lbl success) behind s h refl in
        elim (Bool-cases (group_holds d atoms)) [
          | inl yes_holds ↦
              rw append_assoc (ran ∙ rw yes_holds (jump-success id groups s' ne apart))
          | inr fails ↦ rw append_assoc (ran ∙ rw fails (groups_code-exec groups s' hs apart))
        ]
