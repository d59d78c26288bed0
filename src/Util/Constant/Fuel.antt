-- ===== src/Util/Constant/Fuel.antt =====
-- The fuel of `parse_constant` is enough.
use minijail.Base.{
  ℕ, zero, suc, ◌+◌, ◌-◌, ◌<◌, ◌≤◌, Bool, List, [], ◌∷◌, ◌++◌, Option, none, some, length,
  length-append, Bytes, ◌≡◌, ◌≢◌, refl, ap, arith, Bool-cases, Option-cases, inl, inr,
}
use minijail.Util.Constant.{
  Parsed, parsed, failed, out_of_fuel, behind_paren, drop_tilde, starts_with_paren, close_term,
  paren_term, single_term, parse_terms, parse_constant,
}
use minijail.Util.Syscall.{ConstantEntry}
use minijail.Util.Text.{tokenize, tokenize_parenthesized_expression, strstr}
use minijail.Util.Text.Paren.{tokenize_parenthesized_expression-Balanced}
use minijail.Util.Text.Tokens.{Cut, strstr-Searched}

-- The length of a string that may be NULL.
abbrev left : Option Bytes → ℕ
left none = 0
left (some s) = length s

Cut-shorter :
    (x : ℕ) (delim t before behind : Bytes)
    → Cut (x ∷ delim) t before behind
    → length behind ≤ length t - 1
Cut-shorter x delim t before behind cut = omega (
  arith,
  ap length cut.whole,
  length-append before (x ∷ (delim ++ behind)),
  length-append delim behind,
)

tokenize-shorter : (x : ℕ) (delim t : Bytes) → left (tokenize (some t) (x ∷ delim)).1 ≤ length t - 1
unfolding tokenize
tokenize-shorter x delim t = elim (Option-cases (strstr (x ∷ delim) t)) [
  | inl e ↦ rw (e, tokenize) (omega arith)
  | inr ((before, behind), e) ↦
      rw (e, tokenize)
        (Cut-shorter x delim t before behind (rw e at (strstr-Searched (x ∷ delim) t)))
]

tokenize_paren-shorter :
    (t inside behind : Bytes)
    → tokenize_parenthesized_expression t ≡ some (inside, behind)
    → length inside + length behind + 2 ≡ length t
tokenize_paren-shorter t inside behind e =
    let (whole, balanced) = tokenize_parenthesized_expression-Balanced t inside behind e in
    omega (arith, ap length whole, length-append inside (b')' ∷ behind))

length-drop_tilde : (s : Bytes) → length (drop_tilde s).1 ≤ length s
unfolding drop_tilde
length-drop_tilde [] = omega arith
length-drop_tilde (c ∷ s) = ground arith

length-behind_paren : (s : Bytes) → left (behind_paren s) ≤ length s
unfolding behind_paren
length-behind_paren [] = omega arith
length-behind_paren (c ∷ []) = omega arith
length-behind_paren (c ∷ d ∷ s) = ground arith

-- The terms pass on what their calls return.
module _ (go_on : Option Bytes → ℕ → Parsed) (value : ℕ) (negate : Bool) where
  close_term-returns :
      (behind : Bytes) (p : Parsed)
      → p ≢ out_of_fuel
      → ((r : Bytes) (v : ℕ) → length r ≤ length behind → go_on (some r) v ≢ out_of_fuel)
      → close_term go_on value negate behind p ≢ out_of_fuel
  unfolding close_term
  close_term-returns behind failed h k = cc
  close_term-returns behind out_of_fuel h k = h
  close_term-returns behind (parsed v) h k = elim (Option-cases (behind_paren behind)) [
    | inl e ↦ rw (e, close_term) (cc)
    | inr (r, e) ↦ rw (e, close_term) (k r _ (rw e at (length-behind_paren behind)))
  ]

  paren_term-returns :
      (inner : Bytes → Parsed) (o : Option (Bytes × Bytes))
      → ((g b : Bytes) → o ≡ some (g, b) → inner g ≢ out_of_fuel)
      → ((g b r : Bytes) (v : ℕ)
          → o ≡ some (g, b)
          → length r ≤ length b
          → go_on (some r) v ≢ out_of_fuel)
      → paren_term go_on value negate inner o ≢ out_of_fuel
  unfolding paren_term
  paren_term-returns inner none h k = cc
  paren_term-returns inner (some ([], behind)) h k = cc
  paren_term-returns inner (some (g ∷ group, behind)) h k =
      close_term-returns behind (inner (g ∷ group)) (h _ _ refl) (λ r v. k _ _ r v refl)

  single_term-returns :
      (o : Option ℕ) (rest : Option Bytes)
      → ((v : ℕ) → go_on rest v ≢ out_of_fuel)
      → single_term go_on value negate o rest ≢ out_of_fuel
  unfolding single_term
  single_term-returns none rest k = cc
  single_term-returns (some v) rest k = k _

left-lt :
    (n : ℕ) (o : Option Bytes) (t s : Bytes) (c : ℕ)
    → left o ≤ length t - 1
    → length t ≤ length (c ∷ s)
    → length (c ∷ s) < suc n
    → left o < n
left-lt n o t s c h k l = omega arith

parse_terms-returns :
    (table : List ConstantEntry) (n : ℕ) (o : Option Bytes) (value : ℕ)
    → left o < n
    → parse_terms table n o value ≢ out_of_fuel
unfolding parse_terms
parse_terms-returns table zero o value h = elim h [ ]
parse_terms-returns table (suc n) none value h = cc
parse_terms-returns table (suc n) (some []) value h = cc
parse_terms-returns table (suc n) (some (c ∷ s)) value h =
    let t = (drop_tilde (c ∷ s)).1 in
    let shorter = length-drop_tilde (c ∷ s) in
    elim (Bool-cases (starts_with_paren t)) [
      | inl opens ↦
          rw (opens, parse_terms)
            (paren_term-returns _ _ _ _ _
              (λ g b e.
                parse_terms-returns table n (some g) 0
                  (omega (arith, tokenize_paren-shorter t g b e)))
              (λ g b r v e le.
                parse_terms-returns table n (some r) v
                  (omega (arith, tokenize_paren-shorter t g b e))))
      | inr plain ↦
          rw (plain, parse_terms)
            (single_term-returns _ _ _ _ _ (λ v.
              parse_terms-returns table n _ v
                (left-lt n _ t s c (tokenize-shorter b'|' [] t) shorter h)))
    ]

-- On every string, with every table of constants, `parse_constant` comes to an end: the fuel of
-- the model, two rounds more than the string has bytes behind the first, never runs out.
pub parse_constant-returns :
    (table : List ConstantEntry) (s : Bytes) → parse_constant table s ≢ out_of_fuel
unfolding parse_constant
parse_constant-returns table [] = cc
parse_constant-returns table (c ∷ s) =
    parse_terms-returns table (suc (suc (length s))) (some (c ∷ s)) 0 (omega arith)
