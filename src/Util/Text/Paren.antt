-- ===== src/Util/Text/Paren.antt =====
-- `tokenize_parenthesized_expression` finds the parenthesis that closes the first one.
use mathlib.Core.Path.{subst}
use minijail.Base.{
  ℕ, ◌+◌, ◌-◌, ◌<◌, [], ◌∷◌, ◌++◌, some, if◌then◌else◌, ◌==◌, Bytes, ◌≡◌, ap, arith, Bool-cases,
  Option-cases, some_inj, inl, inr, ◌&&◌,
}
use minijail.Util.Text.{close_paren, tokenize_parenthesized_expression}

abbrev pub next_depth : ℕ → ℕ → ℕ
next_depth depth c = if c == b'(' then depth + 1 else if c == b')' then depth - 1 else depth

-- From `depth` open parentheses `s` closes all but `left` of them, and never the outermost one.
pub data Balanced : ℕ → Bytes → ℕ → Type 0 where
  done : {depth left : ℕ} → depth ≡ left → 0 < depth → Balanced depth [] left
  byte :
      {depth left : ℕ} {c : ℕ} {s : Bytes}
      → 0 < depth
      → Balanced (next_depth depth c) s left
      → Balanced depth (c ∷ s) left

abbrev Closes : ℕ → Bytes → Bytes × Bytes → Type 0
Closes depth s (inside, behind) = (s ≡ inside ++ (b')' ∷ behind)) × Balanced depth inside 1

close_paren-Closes :
    (s : Bytes) (depth : ℕ) (r : Bytes × Bytes)
    → 0 < depth
    → close_paren depth s ≡ some r
    → Closes depth s r
unfolding close_paren
close_paren-Closes [] depth r h e = absurd (cc e)
close_paren-Closes (c ∷ s) depth r h e = elim (Bool-cases (c == b')' && next_depth depth c == 0)) [
  | inl closes ↦
      let found : some ([], s) ≡ some r = rw closes at e in
      let c_is : c ≡ b')' = ground arith in
      subst (Closes depth (c ∷ s)) (some_inj found) (ap (λ x. x ∷ s) c_is, done (ground arith) h)
  | inr on ↦ elim (Option-cases (close_paren (next_depth depth c) s)) [
    | inl open_end ↦ absurd (cc (rw (on, open_end) at e))
    | inr (q, f) ↦
        let found : some (c ∷ q.0, q.1) ≡ some r = rw (on, f) at e in
        let (whole, balanced) = close_paren-Closes s (next_depth depth c) q (ground arith) f in
        subst (Closes depth (c ∷ s)) (some_inj found) (ap (◌∷◌ c) whole, byte h balanced)
  ]
]

-- The token is what stands between a parenthesis at the front of the string and the one that
-- closes it, and the rest of the string is what stands behind that one.
pub tokenize_parenthesized_expression-Balanced :
    (s inside behind : Bytes)
    → tokenize_parenthesized_expression s ≡ some (inside, behind)
    → (s ≡ b'(' ∷ (inside ++ (b')' ∷ behind))) × Balanced 1 inside 1
unfolding tokenize_parenthesized_expression
tokenize_parenthesized_expression-Balanced [] inside behind e = absurd (cc e)
tokenize_parenthesized_expression-Balanced (c ∷ s) inside behind e = elim (Bool-cases (c == b'(')) [
  | inr other ↦ absurd (cc (rw other at e))
  | inl opens ↦
      let (whole, balanced) =
        close_paren-Closes s 1 (inside, behind) (omega arith) (rw opens at e) in
      (ground (arith, whole), balanced)
]
