-- ===== src/Filter/Line/Compile.antt =====
-- What `compile_policy_line` makes of the text of a line: the code of its groups.
use mathlib.Core.Path.{subst}
use minijail.Base.{
  ℕ, ◌+◌, ◌%◌, ◌^◌, ◌<◌, ◌≤◌, List, [], ◌∷◌, ◌++◌, Option, none, some, Bytes, codes, length, ◌≡◌,
  ◌≢◌, refl, sym, ap, ◌∙◌, arith, append_assoc, Option-cases, inl, inr,
}
use minijail.Bpf.{Instr, set_bpf_lbl, set_bpf_jump_lbl}
use minijail.Bpf.Labels.{Labels, bpf_label_id, bpf_labels_max}
use minijail.Bpf.Labels.Given.{
  Given, Extends, bpf_label_id-Gives, Given-unique, Given-lt, Given-inj,
}
use minijail.Filter.Blocks.{FilterBlock, append_filter_block}
use minijail.Filter.Blocks.Flatten.{code}
use minijail.Filter.Blocks.Linked.{IsLinked, appended}
use minijail.Filter.Line.{
  Atom, parse_atom, compile_atom, compile_atoms, compile_group, compile_groups,
}
use minijail.Filter.Line.Code.{arg_comp, atoms_code, groups_code, Apart}
use minijail.Filter.Names.{get_label_id, group_end_lbl, success_lbl, group_end_name, success_name}
use minijail.Filter.Names.Apart.{
  length-group_end_name, length-success_name, group_end_name-success_name,
}
use minijail.Filter.Outcome.{Outcome, done, fail, die, ◌>>=◌, done_inj, >>=-eq-done}
use minijail.Util.Syscall.{ConstantEntry}
use minijail.Util.Text.{tokenize_all}

append_nil : (b : List Instr) → b ++ [] ≡ b
append_nil [] = refl
append_nil (i ∷ b) = ap (◌∷◌ i) (append_nil b)

-- A later table within its entries.
pub record Grows (labels labels' : Labels) : Type 0 where
  pub extends : Extends labels labels'
  pub fits : length labels ≤ bpf_labels_max → length labels' ≤ bpf_labels_max

Grows-refl : (labels : Labels) → Grows labels labels
Grows-refl labels = record { extends = λ t j g. g; fits = λ h. h }

pub Grows-trans : {l₁ l₂ l₃ : Labels} → Grows l₁ l₂ → Grows l₂ l₃ → Grows l₁ l₃
Grows-trans g h = record {
  extends = λ t j given. h.extends t j (g.extends t j given);
  fits = λ le. h.fits (g.fits le);
}

found_id :
    (p : Labels × Option ℕ) {labels : Labels} {id : ℕ}
    → ◌≡◌ {A = Outcome (Labels × ℕ)}
        (elim p.1 [ none ↦ die | some i ↦ done (p.0, i) ])
        (done (labels, id))
    → p ≡ (labels, some id)
found_id (l, none) e = cc
found_id (l, some i) e = cc

get_label_id-done :
    (labels : Labels) (s : Bytes) {labels' : Labels} {id : ℕ}
    → length s ≤ 32
    → get_label_id labels s ≡ done (labels', id)
    → Grows labels labels' × Given labels' s id
unfolding get_label_id
get_label_id-done labels s short e =
    let gives = bpf_label_id-Gives labels s short (found_id (bpf_label_id labels s) e) in
    (record { extends = gives.extends; fits = gives.fits }, gives.given)

pub group_end_lbl-done :
    (labels : Labels) (nr idx : ℕ) {labels' : Labels} {id : ℕ}
    → group_end_lbl labels nr idx ≡ done (labels', id)
    → Grows labels labels' × Given labels' (group_end_name nr idx) id
unfolding group_end_lbl
group_end_lbl-done labels nr idx e = get_label_id-done labels _ (length-group_end_name nr idx) e

pub success_lbl-done :
    (labels : Labels) (nr : ℕ) {labels' : Labels} {id : ℕ}
    → success_lbl labels nr ≡ done (labels', id)
    → Grows labels labels' × Given labels' (success_name nr) id
unfolding success_lbl
success_lbl-done labels nr e = get_label_id-done labels _ (length-success_name nr) e

and_labels :
    (first : Outcome FilterBlock) (labels : Labels) {r : FilterBlock × Labels}
    → (first >>= λ head. done (head, labels)) ≡ done r
    → (first ≡ done r.0) × (labels ≡ r.1)
and_labels first labels e =
    let (head, last, here) = >>=-eq-done first _ e in
    let same = done_inj last in (here ∙ ap (λ p. done p.0) same, ap (λ p. p.1) same)

compiled :
    (head : FilterBlock) (labels : Labels) (comp : List Instr) {r : FilterBlock × Labels}
    → (elim comp [
      | [] ↦ fail
      | i ∷ comp_block ↦ append_filter_block head (i ∷ comp_block) >>= λ head'. done (head', labels)
    ])
      ≡ done r
    → (append_filter_block head comp ≡ done r.0) × (labels ≡ r.1)
compiled head labels [] e = cc
compiled head labels (i ∷ comp) e = and_labels (append_filter_block head (i ∷ comp)) labels e

-- What a run of the compiler adds to the code of its block, whose pointers are right; the table
-- grows.
pub record Adds (head : FilterBlock) (labels : Labels) (r : FilterBlock × Labels)
    (added : List Instr) : Type 0 where
  pub shape : code r.0 ≡ code head ++ added
  pub grows : Grows labels r.1
  pub linked : IsLinked r.0

Adds-nil :
    (head : FilterBlock) (labels : Labels) → IsLinked head → Adds head labels (head, labels) []
Adds-nil head labels linked = record {
  shape = sym (append_nil (code head));
  grows = Grows-refl labels;
  linked = linked;
}

pub Adds-append :
    {head : FilterBlock} {labels : Labels} {r₁ r₂ : FilterBlock × Labels} (p q : List Instr)
    → Adds head labels r₁ p
    → Adds r₁.0 r₁.1 r₂ q
    → Adds head labels r₂ (p ++ q)
Adds-append {head} p q h h' = record {
  shape = h'.shape ∙ ap (λ c. c ++ q) h.shape ∙ append_assoc (code head) p q;
  grows = Grows-trans h.grows h'.grows;
  linked = h'.linked;
}

module _ (table : List ConstantEntry) where
  -- The atoms that the texts of a group say, and the groups of a line.
  abbrev pub AtomsOf : List Bytes → List Atom → Type 0
  AtomsOf [] [] = Unit
  AtomsOf (t ∷ ts) (a ∷ atoms) = (parse_atom table t ≡ some a) × AtomsOf ts atoms
  AtomsOf _ _ = ⊥

  abbrev pub GroupsOf : List Bytes → List (ℕ × List Atom) → Type 0
  GroupsOf [] [] = Unit
  GroupsOf (g ∷ gs) ((id, atoms) ∷ groups) =
      AtomsOf (tokenize_all (some g) (codes "&&")) atoms × GroupsOf gs groups
  GroupsOf _ _ = ⊥

  compile_atom-done :
      (head : FilterBlock) (t : Bytes) (labels : Labels) (nr idx : ℕ) {r : FilterBlock × Labels}
      → compile_atom table head t labels nr idx ≡ done r
      → (a : Atom) × (id : ℕ) × (parse_atom table t ≡ some a)
        × (group_end_lbl labels nr idx ≡ done (r.1, id))
        × (append_filter_block head (arg_comp id a) ≡ done r.0)
  unfolding compile_atom
  compile_atom-done head t labels nr idx {r} e = elim (Option-cases (parse_atom table t)) [
    | inl absent ↦ absurd (cc (rw (absent, compile_atom) at e))
    | inr (a, parsed) ↦
        let ((labels', id), last, first) =
          >>=-eq-done (group_end_lbl labels nr idx) _ (rw (parsed, compile_atom) at e) in
        let (here, same) = compiled head labels' (arg_comp id a) last in
        (a, id, parsed, first ∙ ap (λ l. done (l, id)) same, here)
  ]

  compile_atoms-cons :
      (head : FilterBlock) (t : Bytes) (ts : List Bytes) (labels : Labels) (nr idx : ℕ)
      {r : FilterBlock × Labels}
      → compile_atoms table head (t ∷ ts) labels nr idx ≡ done r
      → (r' : FilterBlock × Labels) × (compile_atoms table r'.0 ts r'.1 nr idx ≡ done r)
        × (compile_atom table head t labels nr idx ≡ done r')
  unfolding compile_atoms
  compile_atoms-cons head t ts labels nr idx e =
      >>=-eq-done (compile_atom table head t labels nr idx) _ e

  record GroupParts (head : FilterBlock) (g : Bytes) (labels : Labels) (nr idx : ℕ)
      (r : FilterBlock × Labels) : Type 0 where
    r₁ : FilterBlock × Labels
    labels₂ : Labels
    success : ℕ
    labels₃ : Labels
    id : ℕ
    atoms_done :
        compile_atoms table head (tokenize_all (some g) (codes "&&")) labels nr idx ≡ done r₁
    success_done : success_lbl r₁.1 nr ≡ done (labels₂, success)
    end_done : group_end_lbl labels₂ nr idx ≡ done (labels₃, id)
    result : append_filter_block r₁.0 (set_bpf_jump_lbl success ∷ set_bpf_lbl id ∷ []) ≡ done r.0
    table_is : labels₃ ≡ r.1

  compile_group-parts :
      (head : FilterBlock) (g : Bytes) (labels : Labels) (nr idx : ℕ) {r : FilterBlock × Labels}
      → compile_group table head g labels nr idx ≡ done r
      → GroupParts head g labels nr idx r
  unfolding compile_group
  compile_group-parts head g labels nr idx e =
      let (r₁, e₁, atoms_done) =
        >>=-eq-done (compile_atoms table head (tokenize_all (some g) (codes "&&")) labels nr idx) _
          e in
      let ((labels₂, success), e₂, success_done) = >>=-eq-done (success_lbl r₁.1 nr) _ e₁ in
      let ((labels₃, id), e₃, end_done) = >>=-eq-done (group_end_lbl labels₂ nr idx) _ e₂ in
      let (result, table_is) =
        and_labels (append_filter_block r₁.0 (set_bpf_jump_lbl success ∷ set_bpf_lbl id ∷ []))
          labels₃ e₃ in
      record {
        r₁ = r₁;
        labels₂ = labels₂;
        success = success;
        labels₃ = labels₃;
        id = id;
        atoms_done = atoms_done;
        success_done = success_done;
        end_done = end_done;
        result = result;
        table_is = table_is;
      }

  compile_atoms-Grows :
      (ts : List Bytes) (head : FilterBlock) (labels : Labels) (nr idx : ℕ)
      {r : FilterBlock × Labels}
      → compile_atoms table head ts labels nr idx ≡ done r
      → Grows labels r.1
  unfolding compile_atoms
  compile_atoms-Grows [] head labels nr idx e =
      subst (λ r. Grows labels r.1) (done_inj e) (Grows-refl labels)
  compile_atoms-Grows (t ∷ ts) head labels nr idx e =
      let (r₁, rest, first) = compile_atoms-cons head t ts labels nr idx e in
      let (a, id, parsed, labelled, shape) = compile_atom-done head t labels nr idx first in
      Grows-trans (group_end_lbl-done labels nr idx labelled).0
        (compile_atoms-Grows ts r₁.0 r₁.1 nr idx rest)

  compile_groups-cons :
      (head : FilterBlock) (g : Bytes) (gs : List Bytes) (labels : Labels) (nr idx : ℕ)
      {r : FilterBlock × Labels}
      → compile_groups table head (g ∷ gs) labels nr idx ≡ done r
      → (r' : FilterBlock × Labels) × (compile_groups table r'.0 gs r'.1 nr (idx + 1) ≡ done r)
        × (compile_group table head g labels nr idx ≡ done r')
  unfolding compile_groups
  compile_groups-cons head g gs labels nr idx e =
      >>=-eq-done (compile_group table head g labels nr idx) _ e

  compile_group-Grows :
      (head : FilterBlock) (g : Bytes) (labels : Labels) (nr idx : ℕ) {r : FilterBlock × Labels}
      → compile_group table head g labels nr idx ≡ done r
      → Grows labels r.1
  compile_group-Grows head g labels nr idx e =
      let parts = compile_group-parts head g labels nr idx e in
      let ends = (group_end_lbl-done parts.labels₂ nr idx parts.end_done).0 in
      let atoms =
        compile_atoms-Grows (tokenize_all (some g) (codes "&&")) head labels nr idx
          parts.atoms_done in
      subst (λ l. Grows labels l) parts.table_is
        (Grows-trans atoms (Grows-trans (success_lbl-done parts.r₁.1 nr parts.success_done).0 ends))

  pub compile_groups-Grows :
      (gs : List Bytes) (head : FilterBlock) (labels : Labels) (nr idx : ℕ)
      {r : FilterBlock × Labels}
      → compile_groups table head gs labels nr idx ≡ done r
      → Grows labels r.1
  unfolding compile_groups
  compile_groups-Grows [] head labels nr idx e =
      subst (λ r. Grows labels r.1) (done_inj e) (Grows-refl labels)
  compile_groups-Grows (g ∷ gs) head labels nr idx e =
      let (r₁, rest, first) = compile_groups-cons head g gs labels nr idx e in
      Grows-trans (compile_group-Grows head g labels nr idx first)
        (compile_groups-Grows gs r₁.0 r₁.1 nr (idx + 1) rest)

  -- The table in the end, which knows the ids of all labels of the line.
  module _ (final : Labels) where
    compile_atoms-done :
        (ts : List Bytes) (head : FilterBlock) (labels : Labels) (nr idx : ℕ)
        {r : FilterBlock × Labels} {id : ℕ}
        → IsLinked head
        → compile_atoms table head ts labels nr idx ≡ done r
        → Extends r.1 final
        → Given final (group_end_name nr idx) id
        → (atoms : List Atom) × AtomsOf ts atoms × Adds head labels r (atoms_code id atoms)
    unfolding compile_atoms atoms_code
    compile_atoms-done [] head labels nr idx linked e later given =
        ([], tt, subst (λ r. Adds head labels r []) (done_inj e) (Adds-nil head labels linked))
    compile_atoms-done (t ∷ ts) head labels nr idx {r} {id} linked e later given =
        let (r₁, rest, first) = compile_atoms-cons head t ts labels nr idx e in
        let (a, id₁, parsed, labelled, shape) = compile_atom-done head t labels nr idx first in
        let (linked₁, _, longer) = appended head (arg_comp id₁ a) linked shape in
        let (grows, given₁) = group_end_lbl-done labels nr idx labelled in
        let (atoms, texts, behind) =
          compile_atoms-done ts r₁.0 r₁.1 nr idx linked₁ rest later given in
        let same : id₁ ≡ id =
          Given-unique final (group_end_name nr idx) (later _ _ (behind.grows.extends _ _ given₁))
            given in
        let here : code r₁.0 ≡ code head ++ arg_comp id a =
          longer ∙ ap (λ i. code head ++ arg_comp i a) same in
        (
          a ∷ atoms,
          (parsed, texts),
          Adds-append (arg_comp id a) (atoms_code id atoms)
              (record { shape = here; grows = grows; linked = linked₁ }) behind,
        )

    -- What a group becomes.
    abbrev group_code : ℕ → ℕ → List Atom → List Instr
    group_code success id atoms =
        atoms_code id atoms ++ (set_bpf_jump_lbl success ∷ set_bpf_lbl id ∷ [])

    compile_group-done :
        (head : FilterBlock) (g : Bytes) (labels : Labels) (nr idx : ℕ) {r : FilterBlock × Labels}
        {success : ℕ}
        → IsLinked head
        → compile_group table head g labels nr idx ≡ done r
        → Extends r.1 final
        → Given final (success_name nr) success
        → (id : ℕ) × (atoms : List Atom) × Given final (group_end_name nr idx) id
          × AtomsOf (tokenize_all (some g) (codes "&&")) atoms
          × Adds head labels r (group_code success id atoms)
    compile_group-done head g labels nr idx {r} {success} linked e later given =
        let parts = compile_group-parts head g labels nr idx e in
        let (grows₂, given₂) = success_lbl-done parts.r₁.1 nr parts.success_done in
        let (grows₃, given₃) = group_end_lbl-done parts.labels₂ nr idx parts.end_done in
        let stays : Extends parts.labels₃ final =
          subst (λ l. Extends l final) (sym parts.table_is) later in
        let known = stays _ _ given₃ in
        let same : parts.success ≡ success =
          Given-unique final (success_name nr) (stays _ _ (grows₃.extends _ _ given₂)) given in
        let (atoms, texts, added) =
          compile_atoms-done (tokenize_all (some g) (codes "&&")) head labels nr idx linked
            parts.atoms_done (λ t j k. stays t j (grows₃.extends t j (grows₂.extends t j k)))
            known in
        let (linked₃, _, longer) = appended parts.r₁.0 _ added.linked parts.result in
        let last : Adds parts.r₁.0 parts.r₁.1 r
            (set_bpf_jump_lbl success ∷ set_bpf_lbl parts.id ∷ []) =
          record {
            shape =
                longer
                ∙ ap (λ i. code parts.r₁.0 ++ (set_bpf_jump_lbl i ∷ set_bpf_lbl parts.id ∷ []))
                    same;
            grows = subst (λ l. Grows parts.r₁.1 l) parts.table_is (Grows-trans grows₂ grows₃);
            linked = linked₃;
          } in
        (parts.id, atoms, known, texts, Adds-append (atoms_code parts.id atoms) _ added last)

    module _ (nr success : ℕ) (nr_fits : nr < 2 ^ 31) (final_fits : length final ≤ bpf_labels_max)
        (given : Given final (success_name nr) success) where
      id-ne-success :
          (idx id : ℕ) → Given final (group_end_name nr idx) id → id % 2 ^ 32 ≢ success % 2 ^ 32
      id-ne-success idx id known e =
          let same : id ≡ success = omega (arith, Given-lt final _ known, Given-lt final _ given) in
          group_end_name-success_name nr idx nr_fits
            (Given-inj final _ _ known (rw (sym same) at given))

      -- The groups of a line become the code of the groups that their texts say.
      pub compile_groups-done :
          (gs : List Bytes) (head : FilterBlock) (labels : Labels) (idx : ℕ)
          {r : FilterBlock × Labels}
          → IsLinked head
          → compile_groups table head gs labels nr idx ≡ done r
          → Extends r.1 final
          → (groups : List (ℕ × List Atom)) × GroupsOf gs groups
            × Apart success groups
            × Adds head labels r (groups_code success groups)
      unfolding compile_groups groups_code
      compile_groups-done [] head labels idx linked e later = (
        [],
        tt,
        tt,
        subst (λ r. Adds head labels r []) (done_inj e) (Adds-nil head labels linked),
      )
      compile_groups-done (g ∷ gs) head labels idx {r} linked e later =
          let (r₁, rest, first) = compile_groups-cons head g gs labels nr idx e in
          let grows = compile_groups-Grows gs r₁.0 r₁.1 nr (idx + 1) rest in
          let (id, atoms, known, text, here) =
            compile_group-done head g labels nr idx linked first
              (λ t j k. later t j (grows.extends t j k)) given in
          let (groups, texts, apart, behind) =
            compile_groups-done gs r₁.0 r₁.1 (idx + 1) here.linked rest later in
          (
            (id, atoms) ∷ groups,
            (text, texts),
            (id-ne-success idx id known, apart),
            subst (Adds head labels r) (append_assoc (atoms_code id atoms) _ _)
                (Adds-append _ _ here behind),
          )
