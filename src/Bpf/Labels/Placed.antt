-- ===== src/Bpf/Labels/Placed.antt =====
-- Where the walk of `bpf_resolve_jumps` has placed the labels, one instruction at a time.
use mathlib.Core.Option
use minijail.Base.{
  ℕ, suc, ◌+◌, ◌%◌, ◌^◌, ◌<◌, ◌≤◌, true, false, ◌&&◌, List, [], ◌∷◌, Option, none, some,
  if◌then◌else◌, ◌==◌, length, get_elem?, get_elem?-set_self, get_elem?-set_ne, get_elem?-lt_length,
  set, ◌≡◌, sym, ◌∙◌, arith, Bool-cases, Option-cases, inl, inr,
}
use minijail.Bpf.{Instr}
use minijail.Bpf.Machine.{distance, is_lbl, is_jump_lbl}
use minijail.Bpf.Labels.{
  Label, Labels, unplaced, ok, resolve_jump, place_label, resolve_instr, bpf_maxinsns,
}

-- The fields of an instruction are an unsigned short, two unsigned chars and an unsigned int.
pub record IsInstr (i : Instr) : Type 0 where
  pub jt_fits : i.jt < 2 ^ 8
  pub jf_fits : i.jf < 2 ^ 8

abbrev pub All {ℓ κ} : {A : Type ℓ} → (A → Type κ) → List A → Type κ
All P [] = Unit
All P (x ∷ xs) = P x × All P xs

-- Where the walk has placed a label that stands `n` instructions behind index `offset`.
abbrev pub Placed : ℕ → Label → Option ℕ → Type 0
Placed offset l none = l.location ≡ unplaced
Placed offset l (some n) = l.location ≡ offset + n

-- The table after the walk over `p`, which begins at index `offset`.
abbrev pub IsPlaced : Labels → ℕ → List Instr → Type 0
IsPlaced labels offset p =
    (id : ℕ) (l : Label) → get_elem? labels id ≡ some l → Placed offset l (distance id p)

-- A table none of whose labels is placed, as `bpf_label_id` builds it.
abbrev pub IsFresh : Labels → Type 0
IsFresh labels = (id : ℕ) (l : Label) → get_elem? labels id ≡ some l → l.location ≡ unplaced

distance-lt : (id : ℕ) (p : List Instr) {n : ℕ} → distance id p ≡ some n → n < length p
unfolding distance
distance-lt id [] e = cc
distance-lt id (i ∷ p) e = elim (Bool-cases (is_lbl i && i.k == id)) [
  | inl here ↦ ground arith
  | inr later ↦ elim (Option-cases (distance id p)) [
    | inl no_label ↦ ground arith
    | inr (m, f) ↦ ground (arith, distance-lt id p f)
  ]
]

-- The tests of the source, read one mark at a time.
pub resolve_instr-kinds :
    (labels : Labels) (offset : ℕ) (i : Instr)
    → IsInstr i
    → resolve_instr labels offset i ≡ (
        if is_jump_lbl i
        then resolve_jump labels offset i
        else if is_lbl i
        then place_label labels offset i
        else ok (labels, i))
unfolding resolve_instr
resolve_instr-kinds labels offset i h = ground arith

Placed-suc :
    (offset : ℕ) (l : Label) (o : Option ℕ)
    → Placed (offset + 1) l o
    → Placed offset l (Option.map suc o)
Placed-suc offset l none h = h
Placed-suc offset l (some n) h = omega arith

module _ (labels : Labels) (offset : ℕ) (p : List Instr) (i : Instr)
    (room : offset + 1 + length p ≤ bpf_maxinsns) (placed : IsPlaced labels (offset + 1) p) where
  -- A jump that the walk resolves passes over what stands in front of its label.
  pub resolve_jump-distance :
      {labels' : Labels} {i' : Instr}
      → resolve_jump labels offset i ≡ ok (labels', i')
      → (n : ℕ) × (distance i.k p ≡ some n)
        × (labels ≡ labels')
        × (record i { jt = 0; jf = 0; k = n } ≡ i')
  unfolding resolve_jump
  resolve_jump-distance e = elim (Option-cases (get_elem? labels i.k)) [
    | inl absent ↦ absurd (ground arith)
    | inr (l, got) ↦ elim (Option-cases (distance i.k p)) [
      | inl no_label ↦ absurd (ground (arith, rw no_label at (placed i.k l got)))
      | inr (n, f) ↦
          let at : l.location ≡ offset + 1 + n = rw f at (placed i.k l got) in
          (n, f, ground arith, ground (arith, distance-lt i.k p f))
    ]
  ]

  -- Any other instruction leaves the table alone, and is one more in front of each label.
  pub IsPlaced-cons : is_lbl i ≡ false → IsPlaced labels offset (i ∷ p)
  unfolding distance
  IsPlaced-cons other id l got = rw other (Placed-suc offset l (distance id p) (placed id l got))

  IsPlaced-set :
      (l : Label)
      → is_lbl i ≡ true
      → get_elem? labels i.k ≡ some l
      → IsPlaced (set labels i.k (record l { location = offset % 2 ^ 32 })) offset (i ∷ p)
  unfolding distance
  IsPlaced-set l mark got id l' got' = elim (Bool-cases (i.k == id)) [
    | inl same ↦
        let here =
          get_elem?-set_self labels i.k (record l { location = offset % 2 ^ 32 })
            (get_elem?-lt_length labels i.k got) in
        rw (mark, same) (ground (arith, here))
    | inr other ↦
        let kept =
          get_elem?-set_ne labels i.k id (record l { location = offset % 2 ^ 32 }) (ground arith) in
        rw (mark, other) (Placed-suc offset l' (distance id p) (placed id l' (sym kept ∙ got')))
  ]

  pub place_label-IsPlaced :
      (labels' : Labels) (i' : Instr)
      → is_lbl i ≡ true
      → place_label labels offset i ≡ ok (labels', i')
      → IsPlaced labels' offset (i ∷ p) × (record i { k = 0; jt = 0; jf = 0 } ≡ i')
  unfolding place_label
  place_label-IsPlaced labels' i' mark e = elim (Option-cases (get_elem? labels i.k)) [
    | inl absent ↦ absurd (ground arith)
    | inr (l, got) ↦
        let e' : set labels i.k (record l { location = offset % 2 ^ 32 }) ≡ labels' =
          ground arith in
        (rw e' at (IsPlaced-set l mark got), ground arith)
  ]
