-- ===== src/Bpf/Labels/Given.antt =====
-- The ids that `bpf_label_id` has given stay as they are while the table grows.
use minijail.Base.{
  ℕ, ◌+◌, ◌≤◌, ◌<◌, [], ◌∷◌, ◌++◌, Option, none, some, ◌==◌, length, length-append,
  get_elem?-lt_length, Bytes, streq, ◌≡◌, ◌≢◌, sym, ap, ◌∙◌, arith, Bool-cases, Option-cases,
  some_inj, inl, inr,
}
use minijail.Bpf.Labels.{
  Labels, new_label, find_label, bpf_label_id, bpf_labels_max, max_bpf_label_len,
}
use minijail.Bpf.Labels.Table.{
  bpf_label_id-found, bpf_label_id-new, bpf_label_id-full, find_label-concat, find_label-Names,
}

-- The name `s` has the id `id`.
abbrev pub Given : Labels → Bytes → ℕ → Type 0
Given labels s id = find_label 0 labels s ≡ some id

-- A later table: every id that is given stays.
abbrev pub Extends : Labels → Labels → Type 0
Extends labels labels' = (t : Bytes) (j : ℕ) → Given labels t j → Given labels' t j

find_label-append :
    (ls ms : Labels) (n : ℕ) (s : Bytes) {id : ℕ}
    → find_label n ls s ≡ some id
    → find_label n (ls ++ ms) s ≡ some id
unfolding find_label
find_label-append [] ms n s e = cc
find_label-append (l ∷ ls) ms n s e = elim (Bool-cases (streq s l.label)) [
  | inl same ↦ rw same (rw same at e)
  | inr other ↦ rw other (find_label-append ls ms (n + 1) s (rw other at e))
]

-- A call with a name of at most 32 bytes gives the name its id, keeps the ids of all others, and
-- keeps the table within its entries.
pub record Gives (labels : Labels) (s : Bytes) (labels' : Labels) (id : ℕ) : Type 0 where
  pub given : Given labels' s id
  pub extends : Extends labels labels'
  pub fits : length labels ≤ bpf_labels_max → length labels' ≤ bpf_labels_max

Gives-new :
    (labels : Labels) (s : Bytes)
    → find_label 0 labels s ≡ none
    → length s ≤ max_bpf_label_len
    → length labels ≢ bpf_labels_max
    → Gives labels s (labels ++ (new_label s ∷ [])) (length labels)
Gives-new labels s e short n = record {
  given = find_label-concat labels 0 s e short ∙ ap some (omega arith);
  extends = λ t j g. find_label-append labels (new_label s ∷ []) 0 t g;
  fits = λ h. omega (arith, length-append labels (new_label s ∷ []));
}

abbrev IfGiven : Labels → Bytes → Labels × Option ℕ → Type 0
IfGiven labels s (labels', none) = Unit
IfGiven labels s (labels', some id) = Gives labels s labels' id

bpf_label_id-IfGiven :
    (labels : Labels) (s : Bytes)
    → length s ≤ max_bpf_label_len
    → IfGiven labels s (bpf_label_id labels s)
bpf_label_id-IfGiven labels s short = elim (Option-cases (find_label 0 labels s)) [
  | inr (id, e) ↦
      rw (bpf_label_id-found labels s e) (record { given = e; extends = λ t j g. g; fits = λ h. h })
  | inl e ↦ elim (Bool-cases (length labels == bpf_labels_max)) [
    | inl f ↦ rw (bpf_label_id-full labels s e (ground arith)) tt
    | inr f ↦
        let room : length labels ≢ bpf_labels_max = ground arith in
        rw (bpf_label_id-new labels s e room) (Gives-new labels s e short room)
  ]
]

pub bpf_label_id-Gives :
    (labels : Labels) (s : Bytes) {labels' : Labels} {id : ℕ}
    → length s ≤ max_bpf_label_len
    → bpf_label_id labels s ≡ (labels', some id)
    → Gives labels s labels' id
bpf_label_id-Gives labels s short e = rw e at (bpf_label_id-IfGiven labels s short)

-- An id is an index of the table, and two names with the same id are the same.
pub Given-lt : (labels : Labels) (s : Bytes) {id : ℕ} → Given labels s id → id < length labels
Given-lt labels s g =
    let (j, same, (l, got, named)) = find_label-Names labels 0 s g in
    omega (arith, get_elem?-lt_length labels j got)

pub Given-inj :
    (labels : Labels) (s t : Bytes) {id : ℕ} → Given labels s id → Given labels t id → s ≡ t
Given-inj labels s t {id} g h =
    let (j, at_j, (l, got, named)) = find_label-Names labels 0 s g in
    let (k, at_k, (m, got', named')) = find_label-Names labels 0 t h in
    let j-k : j ≡ k = omega arith in
    sym named ∙ ap (λ x. x.label) (some_inj (sym got ∙ (rw (sym j-k) at got'))) ∙ named'

pub Given-unique :
    (labels : Labels) (s : Bytes) {id id' : ℕ} → Given labels s id → Given labels s id' → id ≡ id'
Given-unique labels s g h = some_inj (sym g ∙ h)
