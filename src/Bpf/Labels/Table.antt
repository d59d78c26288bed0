-- ===== src/Bpf/Labels/Table.antt =====
-- `bpf_label_id` is a dictionary from names to ids.
use minijail.Base.{
  ℕ, zero, suc, ◌+◌, ◌≤◌, List, [], ◌∷◌, ◌++◌, Option, none, some, ◌==◌, length, length-append,
  get_elem?, take, Bytes, streq, streq_iff, ◌≡◌, ◌≢◌, refl, sym, ap, ◌∙◌, arith, Bool-cases,
  Option-cases, inl, inr,
}
use minijail.Bpf.Labels.{
  Label, Labels, new_label, find_label, bpf_label_id, bpf_labels_max, max_bpf_label_len,
}

take-all {ℓ} : {A : Type ℓ} (n : ℕ) (xs : List A) → length xs ≤ n → take n xs ≡ xs
take-all zero [] h = refl
take-all zero (x ∷ xs) h = absurd (omega arith)
take-all (suc n) [] h = refl
take-all (suc n) (x ∷ xs) h = ap (◌∷◌ x) (take-all n xs (omega arith))

-- The entry `id` of the table is named `s`.
abbrev pub Names : Labels → ℕ → Bytes → Type 0
Names labels id s = (l : Label) × (get_elem? labels id ≡ some l) × (l.label ≡ s)

pub find_label-Names :
    (ls : Labels) (n : ℕ) (s : Bytes) {id : ℕ}
    → find_label n ls s ≡ some id
    → (j : ℕ) × (id ≡ n + j) × Names ls j s
unfolding find_label
find_label-Names [] n s e = cc
find_label-Names (l ∷ ls) n s e = elim (Bool-cases (streq s l.label)) [
  | inl same ↦ (0, ground arith, (l, refl, sym ((streq_iff s l.label).0 same)))
  | inr other ↦
      let (j, e', found) = find_label-Names ls (n + 1) s (rw other at e) in
      (suc j, omega arith, found)
]

-- A name that is not there is found at the end, once it is put there.
pub find_label-concat :
    (ls : Labels) (n : ℕ) (s : Bytes)
    → find_label n ls s ≡ none
    → length s ≤ max_bpf_label_len
    → find_label n (ls ++ (new_label s ∷ [])) s ≡ some (n + length ls)
unfolding find_label
find_label-concat [] n s e h =
    rw ((streq_iff s (take 32 s)).1 (sym (take-all 32 s h))) (ground arith)
find_label-concat (l ∷ ls) n s e h = elim (Bool-cases (streq s l.label)) [
  | inl same ↦ absurd (cc (rw same at e))
  | inr other ↦ rw other (find_label-concat ls (n + 1) s (rw other at e) h ∙ ap some (omega arith))
]

get_elem?-concat : (ls : Labels) (l : Label) → get_elem? (ls ++ (l ∷ [])) (length ls) ≡ some l
get_elem?-concat [] l = refl
get_elem?-concat (x ∷ ls) l = get_elem?-concat ls l

get_elem?-kept :
    (ls ms : Labels) (j : ℕ) {l : Label} → get_elem? ls j ≡ some l → get_elem? (ls ++ ms) j ≡ some l
get_elem?-kept [] ms j e = cc
get_elem?-kept (x ∷ ls) ms zero e = e
get_elem?-kept (x ∷ ls) ms (suc j) e = get_elem?-kept ls ms j e

-- What a call that gives an id promises of the table: the id is that of the name, every id given
-- before keeps its entry, the table grows to at most BPF_LABELS_MAX entries, and the same name
-- gets the same id from then on.
pub record Interned (labels : Labels) (s : Bytes) (labels' : Labels) (id : ℕ) : Type 0 where
  pub named : Names labels' id s
  pub kept : (j : ℕ) {l : Label} → get_elem? labels j ≡ some l → get_elem? labels' j ≡ some l
  pub fits : length labels ≤ bpf_labels_max → length labels' ≤ bpf_labels_max
  pub again : bpf_label_id labels' s ≡ (labels', some id)

-- The search in a table that is not empty.
pub bpf_label_id-found :
    (labels : Labels) (s : Bytes) {id : ℕ}
    → find_label 0 labels s ≡ some id
    → bpf_label_id labels s ≡ (labels, some id)
unfolding bpf_label_id
bpf_label_id-found [] s e = unfold find_label in cc
bpf_label_id-found (l ∷ ls) s e = ground arith

pub bpf_label_id-new :
    (labels : Labels) (s : Bytes)
    → find_label 0 labels s ≡ none
    → length labels ≢ bpf_labels_max
    → bpf_label_id labels s ≡ (labels ++ (new_label s ∷ []), some (length labels))
unfolding bpf_label_id
bpf_label_id-new [] s e n = refl
bpf_label_id-new (l ∷ ls) s e n = ground arith

pub bpf_label_id-full :
    (labels : Labels) (s : Bytes)
    → find_label 0 labels s ≡ none
    → length labels ≡ bpf_labels_max
    → bpf_label_id labels s ≡ (labels, none)
unfolding bpf_label_id
bpf_label_id-full [] s e n = absurd (omega arith)
bpf_label_id-full (l ∷ ls) s e n = ground arith

find_label-none :
    (ls : Labels) (n : ℕ) (s : Bytes) (j : ℕ) → find_label n ls s ≡ none → Names ls j s → ⊥
unfolding find_label
find_label-none [] n s j e (l, got, named) = cc
find_label-none (x ∷ ls) n s zero e (l, got, named) =
    ground (arith, (streq_iff s x.label).1, named, got)
find_label-none (x ∷ ls) n s (suc j) e found = elim (Bool-cases (streq s x.label)) [
  | inl same ↦ absurd (cc (rw same at e))
  | inr other ↦ find_label-none ls (n + 1) s j (rw other at e) found
]

Interned-found :
    (labels : Labels) (s : Bytes) {id : ℕ}
    → find_label 0 labels s ≡ some id
    → Interned labels s labels id
Interned-found labels s {id} e = record {
  named =
      let (j, same, found) = find_label-Names labels 0 s e in
      let j-id : j ≡ id = omega arith in rw j-id at found;
  kept = λ j g. g;
  fits = λ h. h;
  again = bpf_label_id-found labels s e;
}

Interned-new :
    (labels : Labels) (s : Bytes)
    → find_label 0 labels s ≡ none
    → length s ≤ max_bpf_label_len
    → length labels ≢ bpf_labels_max
    → Interned labels s (labels ++ (new_label s ∷ [])) (length labels)
Interned-new labels s e short n = record {
  named = (new_label s, get_elem?-concat labels (new_label s), take-all 32 s short);
  kept = λ j g. get_elem?-kept labels (new_label s ∷ []) j g;
  fits = λ h. omega (arith, length-append labels (new_label s ∷ []));
  again = bpf_label_id-found _ s (find_label-concat labels 0 s e short ∙ ap some (omega arith));
}

-- The two results of a call, for a name that is not cut.
abbrev pub InternedOrFull : Labels → Bytes → Labels × Option ℕ → Type 0
InternedOrFull labels s (labels', some id) = Interned labels s labels' id
InternedOrFull labels s (labels', none) =
    (labels' ≡ labels) × (length labels ≡ bpf_labels_max) × ((j : ℕ) → ¬ Names labels j s)

-- A call with a name of at most 32 bytes gives the id of that name. The id's entry has the name,
-- ids given before keep their entries, the table keeps within its 512 entries, and the same call
-- on the new table gives the same id and leaves the table as it is. It gives no id only if the
-- table is full and the name is not in it, and then changes nothing. A longer name is cut, and
-- nothing is said of it.
pub bpf_label_id-Interned :
    (labels : Labels) (s : Bytes)
    → length s ≤ max_bpf_label_len
    → InternedOrFull labels s (bpf_label_id labels s)
bpf_label_id-Interned labels s short = elim (Option-cases (find_label 0 labels s)) [
  | inr (id, e) ↦ rw (bpf_label_id-found labels s e) (Interned-found labels s e)
  | inl e ↦ elim (Bool-cases (length labels == bpf_labels_max)) [
    | inl f ↦
        rw (bpf_label_id-full labels s e (ground arith))
          (refl, ground arith, λ j. find_label-none labels 0 s j e)
    | inr f ↦
        let room : length labels ≢ bpf_labels_max = ground arith in
        rw (bpf_label_id-new labels s e room) (Interned-new labels s e short room)
  ]
]
