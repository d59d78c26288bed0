-- ===== src/Filter/Line/Code.antt =====
-- The instructions that a policy line becomes, and where their labels are.
use minijail.Base.{
  ℕ, suc, ◌+◌, ◌%◌, ◌^◌, false, List, [], ◌∷◌, ◌++◌, some, ◌==◌, length, length-append, ◌≡◌, ◌≢◌,
  ap, ◌∙◌, arith, append_assoc, Bool-cases, inl, inr,
}
use minijail.Bpf.{
  Instr, Op, set_bpf_lbl, set_bpf_jump_lbl, bpf_arg_comp, bpf_load_arg, bpf_comp_jeq64,
  bpf_comp_jgt64, bpf_comp_jge64, bpf_comp_jset64, bpf_comp_jin, hi_word,
}
use minijail.Bpf.Machine.{distance, is_lbl}
use minijail.Filter.Line.{Atom}

abbrev pub arg_comp : ℕ → Atom → List Instr
arg_comp id a = bpf_arg_comp a.op a.argidx a.constant id

-- The atoms of a group whose end has the label `id`.
unfoldable pub atoms_code : ℕ → List Atom → List Instr
atoms_code id [] = []
atoms_code id (a ∷ atoms) = arg_comp id a ++ atoms_code id atoms

-- Groups with the ids of their ends, and the id of the success label.
unfoldable pub groups_code : ℕ → List (ℕ × List Atom) → List Instr
groups_code success [] = []
groups_code success ((id, atoms) ∷ groups) =
    atoms_code id atoms ++ (set_bpf_jump_lbl success ∷ set_bpf_lbl id ∷ groups_code success groups)

-- No instruction of a block is a label.
abbrev pub NoLabels : List Instr → Type 0
NoLabels [] = Unit
NoLabels (i ∷ p) = (is_lbl i ≡ false) × NoLabels p

pub NoLabels-append : (p q : List Instr) → NoLabels p → NoLabels q → NoLabels (p ++ q)
NoLabels-append [] q hp hq = hq
NoLabels-append (i ∷ p) q hp hq = (hp.0, NoLabels-append p q hp.1 hq)

pub bpf_arg_comp-NoLabels : (op : Op) (i c id : ℕ) → NoLabels (bpf_arg_comp op i c id)
unfolding bpf_arg_comp bpf_load_arg bpf_comp_jeq64 bpf_comp_jgt64 bpf_comp_jge64 bpf_comp_jset64
    bpf_comp_jin
bpf_arg_comp-NoLabels Op.lt i c id = elim (Bool-cases (hi_word c == 0)) [
  | inl e ↦ rw e (ground arith)
  | inr e ↦ rw e (ground arith)
]
bpf_arg_comp-NoLabels Op.le i c id = elim (Bool-cases (hi_word c == 0)) [
  | inl e ↦ rw e (ground arith)
  | inr e ↦ rw e (ground arith)
]
bpf_arg_comp-NoLabels Op.gt i c id = elim (Bool-cases (hi_word c == 0)) [
  | inl e ↦ rw e (ground arith)
  | inr e ↦ rw e (ground arith)
]
bpf_arg_comp-NoLabels Op.ge i c id = elim (Bool-cases (hi_word c == 0)) [
  | inl e ↦ rw e (ground arith)
  | inr e ↦ rw e (ground arith)
]
bpf_arg_comp-NoLabels _ i c id = ground arith

pub distance-NoLabels :
    (id : ℕ) (p q : List Instr) {n : ℕ}
    → NoLabels p
    → distance id q ≡ some n
    → distance id (p ++ q) ≡ some (length p + n)
unfolding distance
distance-NoLabels id [] q h e = e ∙ ap some (omega arith)
distance-NoLabels id (i ∷ p) q {n} h e =
    rw (h.0, distance-NoLabels id p q {n = n} h.1 e) (ap some (omega arith))

pub atoms_code-NoLabels : (id : ℕ) (atoms : List Atom) → NoLabels (atoms_code id atoms)
unfolding atoms_code
atoms_code-NoLabels id [] = tt
atoms_code-NoLabels id (a ∷ atoms) =
    NoLabels-append (arg_comp id a) _ (bpf_arg_comp-NoLabels a.op a.argidx a.constant id)
      (atoms_code-NoLabels id atoms)

pub distance-lbl : (id : ℕ) (q : List Instr) → distance (id % 2 ^ 32) (set_bpf_lbl id ∷ q) ≡ some 0
unfolding distance
distance-lbl id q = ground arith

-- The ids of the ends differ from the success label, as labels of instructions.
abbrev pub Apart : ℕ → List (ℕ × List Atom) → Type 0
Apart success [] = Unit
Apart success ((id, _) ∷ groups) = (id % 2 ^ 32 ≢ success % 2 ^ 32) × Apart success groups

distance-group_end :
    (success id : ℕ) (q : List Instr) {n : ℕ}
    → id % 2 ^ 32 ≢ success % 2 ^ 32
    → distance (success % 2 ^ 32) q ≡ some n
    → distance (success % 2 ^ 32) (set_bpf_jump_lbl success ∷ set_bpf_lbl id ∷ q)
      ≡ some (suc (suc n))
unfolding distance
distance-group_end success id q h e = ground arith

-- A jump to the success label from anywhere in front of the groups passes over all of them.
pub distance-groups :
    (success : ℕ) (groups : List (ℕ × List Atom)) (tail : List Instr) {n : ℕ}
    → Apart success groups
    → distance (success % 2 ^ 32) tail ≡ some n
    → distance (success % 2 ^ 32) (groups_code success groups ++ tail)
      ≡ some (length (groups_code success groups) + n)
unfolding groups_code
distance-groups success [] tail h e = e ∙ ap some (omega arith)
distance-groups success ((id, atoms) ∷ groups) tail {n} h e =
    let later = distance-groups success groups tail h.1 e in
    let over = distance-group_end success id (groups_code success groups ++ tail) h.0 later in
    rw append_assoc (
      distance-NoLabels _ (atoms_code id atoms) _ (atoms_code-NoLabels id atoms) over
      ∙ ap some (
          omega (
            arith,
            length-append (atoms_code id atoms)
                (set_bpf_jump_lbl success ∷ set_bpf_lbl id ∷ groups_code success groups),
          )))
