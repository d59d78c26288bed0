-- ===== src/Bpf/Labels/Resolve.antt =====
-- `bpf_resolve_jumps` keeps the meaning of a program.
use mathlib.Core.Path.{subst, subst₂}
use minijail.Base.{
  ℕ, zero, suc, ◌+◌, ◌≤◌, true, false, List, [], ◌∷◌, Option, none, some, ltb, length, ◌≡◌, refl,
  sym, ap, ◌∙◌, arith, Bool-cases, inl, inr,
}
use minijail.Bpf.{Instr}
use minijail.Bpf.Machine.{
  Data, State, kernel, Outcome, stop, go, fault, labelled, exec, step, distance, is_lbl,
  is_jump_lbl,
}
use minijail.Bpf.Labels.{
  Labels, ok, >>=-eq-ok, resolve_instr, resolve_from, bpf_resolve_jumps, bpf_maxinsns,
}
use minijail.Bpf.Labels.Placed.{
  IsInstr, All, IsFresh, IsPlaced, IsPlaced-cons, resolve_instr-kinds, resolve_jump-distance,
  place_label-IsPlaced,
}

-- `i'` behaves for the kernel in front of any program as `i` does, read with labels, before `p`.
abbrev StepsAs : List Instr → Instr → Instr → Type 0
StepsAs p i i' =
    (d : Data) (p' : List Instr) (s : State) → step kernel d p' i' s ≡ step labelled d p i s

StepsAs-other :
    (p : List Instr) (i : Instr) → is_lbl i ≡ false → is_jump_lbl i ≡ false → StepsAs p i i
unfolding step
StepsAs-other p i not_lbl not_jump d p' s = ground arith

StepsAs-lbl :
    (p : List Instr) (i : Instr)
    → is_lbl i ≡ true
    → StepsAs p i (record i { k = 0; jt = 0; jf = 0 })
unfolding step
StepsAs-lbl p i mark d p' s = ground arith

StepsAs-jump_lbl :
    (p : List Instr) (i : Instr) (n : ℕ)
    → is_jump_lbl i ≡ true
    → distance i.k p ≡ some n
    → StepsAs p i (record i { jt = 0; jf = 0; k = n })
unfolding step
StepsAs-jump_lbl p i n mark e d p' s = ground arith

module _ (labels : Labels) (offset : ℕ) (p : List Instr) (i : Instr)
    (room : offset + 1 + length p ≤ bpf_maxinsns) (placed : IsPlaced labels (offset + 1) p) where
  resolve_instr-StepsAs :
      (labels' : Labels) (i' : Instr)
      → IsInstr i
      → resolve_instr labels offset i ≡ ok (labels', i')
      → IsPlaced labels' offset (i ∷ p) × StepsAs p i i'
  resolve_instr-StepsAs labels' i' fits e = elim (Bool-cases (is_jump_lbl i)) [
    | inl jumps ↦
        let (n, f, same, made) =
          resolve_jump-distance labels offset p i room placed
            (rw jumps at (sym (resolve_instr-kinds labels offset i fits) ∙ e)) in
        (
          subst (λ t. IsPlaced t offset (i ∷ p)) same
              (IsPlaced-cons labels offset p i room placed (ground arith)),
          subst (StepsAs p i) made (StepsAs-jump_lbl p i n jumps f),
        )
    | inr stays ↦ elim (Bool-cases (is_lbl i)) [
      | inl mark ↦
          let (placed', made) =
            place_label-IsPlaced labels offset p i room placed labels' i' mark
              (rw (stays, mark) at (sym (resolve_instr-kinds labels offset i fits) ∙ e)) in
          (placed', subst (StepsAs p i) made (StepsAs-lbl p i mark))
      | inr other ↦
          let same = rw (stays, other) at (sym (resolve_instr-kinds labels offset i fits) ∙ e) in
          let same_table : labels ≡ labels' = cc same in
          let same_instr : i ≡ i' = cc same in
          (
            subst (λ t. IsPlaced t offset (i ∷ p)) same_table
                (IsPlaced-cons labels offset p i room placed other),
            subst (StepsAs p i) same_instr (StepsAs-other p i other stays),
          )
    ]
  ]

-- The walk over `p` from index `offset`.
pub record ResolvesTo (labels' : Labels) (offset : ℕ) (p p' : List Instr) : Type 0 where
  pub placed : IsPlaced labels' offset p
  pub same_length : length p' ≡ length p
  pub same_run : (d : Data) (k : ℕ) (s : State) → exec kernel d p' k s ≡ exec labelled d p k s

ResolvesTo-nil : (labels : Labels) (offset : ℕ) → IsFresh labels → ResolvesTo labels offset [] []
unfolding exec distance
ResolvesTo-nil labels offset fresh = record {
  placed = fresh;
  same_length = refl;
  same_run = λ d k s. refl;
}

same_run-cons :
    (i i' : Instr) (p p' : List Instr)
    → StepsAs p i i'
    → ((d : Data) (k : ℕ) (s : State) → exec kernel d p' k s ≡ exec labelled d p k s)
    → (d : Data) (k : ℕ) (s : State) → exec kernel d (i' ∷ p') k s ≡ exec labelled d (i ∷ p) k s
unfolding exec
same_run-cons i i' p p' steps same d (suc k) s = same d k s
same_run-cons i i' p p' steps same d zero s = rw (steps d p' s, exec) (rest (step labelled d p i s))
  where
    rest :
        (o : Outcome)
        → elim o as (λ _. Option ℕ) [
          | stop v ↦ some v
          | go k s' ↦ exec kernel d p' k s'
          | fault ↦ none
        ]
          ≡ elim o as (λ _. Option ℕ) [
            | stop v ↦ some v
            | go k s' ↦ exec labelled d p k s'
            | fault ↦ none
          ]
    rest (stop v) = refl
    rest (go k s') = same d k s'
    rest fault = refl

-- A walk over a program that is not empty: the rest of it first.
pub record Walked (labels : Labels) (offset : ℕ) (i : Instr) (p : List Instr) (labels' : Labels)
    (q : List Instr) : Type 0 where
  pub labels₁ : Labels
  pub p₁ : List Instr
  pub i' : Instr
  pub behind : resolve_from labels (offset + 1) p ≡ ok (labels₁, p₁)
  pub here : resolve_instr labels₁ offset i ≡ ok (labels', i')
  pub shape : i' ∷ p₁ ≡ q

pub resolve_from-Walked :
    (labels : Labels) (offset : ℕ) (i : Instr) (p : List Instr) (labels' : Labels) (q : List Instr)
    → resolve_from labels offset (i ∷ p) ≡ ok (labels', q)
    → Walked labels offset i p labels' q
unfolding resolve_from
resolve_from-Walked labels offset i p labels' q e =
    let (a, e₁, behind) = >>=-eq-ok (resolve_from labels (offset + 1) p) _ e in
    let (b, e₂, here) = >>=-eq-ok (resolve_instr a.0 offset i) _ e₁ in
    record {
      labels₁ = a.0;
      p₁ = a.1;
      i' = b.1;
      behind = behind;
      here = here ∙ ap (λ t. ok (t, b.1)) (cc e₂);
      shape = cc e₂;
    }

resolve_from-nil : (labels : Labels) (offset : ℕ) → resolve_from labels offset [] ≡ ok (labels, [])
unfolding resolve_from
resolve_from-nil labels offset = refl

resolve_from-ResolvesTo :
    (p : List Instr) (labels : Labels) (offset : ℕ) (labels' : Labels) (p' : List Instr)
    → IsFresh labels
    → All IsInstr p
    → offset + length p ≤ bpf_maxinsns
    → resolve_from labels offset p ≡ ok (labels', p')
    → ResolvesTo labels' offset p p'
resolve_from-ResolvesTo [] labels offset labels' p' fresh fits room e =
    let e' = sym (resolve_from-nil labels offset) ∙ e in
    subst₂ (λ t q. ResolvesTo t offset [] q) (cc e') (cc e') (ResolvesTo-nil labels offset fresh)
resolve_from-ResolvesTo (i ∷ p) labels offset labels' p' fresh fits room e =
    let w = resolve_from-Walked labels offset i p labels' p' e in
    let r =
      resolve_from-ResolvesTo p labels (offset + 1) w.labels₁ w.p₁ fresh fits.1 (omega arith)
        w.behind in
    let (placed, steps) =
      resolve_instr-StepsAs w.labels₁ offset p i (omega arith) r.placed labels' w.i' fits.0
        w.here in
    subst (ResolvesTo labels' offset (i ∷ p)) w.shape (record {
      placed = placed;
      same_length = ap suc r.same_length;
      same_run = same_run-cons i w.i' p w.p₁ steps r.same_run;
    })

-- If the walk over a program with a table of unplaced labels succeeds, the program that it leaves
-- has as many instructions, and on every input, from every instruction and state on, the kernel
-- gives it the verdict of the program read with its labels.
pub bpf_resolve_jumps-exec :
    (labels labels' : Labels) (p p' : List Instr)
    → IsFresh labels
    → All IsInstr p
    → bpf_resolve_jumps labels p ≡ ok (labels', p')
    → (length p' ≡ length p)
      × ((d : Data) (k : ℕ) (s : State) → exec kernel d p' k s ≡ exec labelled d p k s)
unfolding bpf_resolve_jumps
bpf_resolve_jumps-exec labels labels' p p' fresh fits e =
    elim (Bool-cases (ltb bpf_maxinsns (length p))) [
      | inl long ↦ absurd (cc (rw long at e))
      | inr short ↦
          let r =
            resolve_from-ResolvesTo p labels 0 labels' p' fresh fits (ground arith)
              (rw short at e) in
          (r.same_length, r.same_run)
    ]
