-- ===== src/Filter/Names/Apart.antt =====
-- The labels of a line have different names: a group's ends in a number and "_end", the success
-- label in "success".
use minijail.Base.{
  ℕ, zero, suc, ◌+◌, ◌*◌, ◌/◌, ◌%◌, ◌^◌, ◌<◌, ◌≤◌, [], ◌∷◌, ◌++◌, some, ltb, length, get_elem?,
  take, Bytes, codes, ◌≡◌, ◌≢◌, refl, sym, ◌∙◌, arith, Bool-cases, some_inj, inl, inr,
}
use minijail.Filter.Names.{digits_onto, decimal, group_end_name, success_name}

length-take : (n : ℕ) (s : Bytes) → length (take n s) ≤ n
length-take zero s = omega arith
length-take (suc n) [] = omega arith
length-take (suc n) (c ∷ s) = omega (arith, length-take n s)

pub length-group_end_name : (nr idx : ℕ) → length (group_end_name nr idx) ≤ 32
unfolding group_end_name
length-group_end_name nr idx =
    omega (arith, length-take 31 (decimal nr ++ (b'_' ∷ (decimal idx ++ codes "_end"))))

pub length-success_name : (nr : ℕ) → length (success_name nr) ≤ 32
unfolding success_name
length-success_name nr = omega (arith, length-take 31 (decimal nr ++ (b'_' ∷ codes "success")))

get_elem?-take : (n : ℕ) (s : Bytes) (i : ℕ) → i < n → get_elem? (take n s) i ≡ get_elem? s i
get_elem?-take zero s i h = elim h [ ]
get_elem?-take (suc n) [] i h = refl
get_elem?-take (suc n) (c ∷ s) zero h = refl
get_elem?-take (suc n) (c ∷ s) (suc i) h = get_elem?-take n s i (omega arith)

get_elem?-behind : (s t : Bytes) (c d : ℕ) → get_elem? (s ++ (c ∷ d ∷ t)) (suc (length s)) ≡ some d
get_elem?-behind [] t c d = refl
get_elem?-behind (x ∷ s) t c d = get_elem?-behind s t c d

-- 10 to the power k + 1.
abbrev tens : ℕ → ℕ
tens zero = 10
tens (suc k) = 10 * tens k

length-digits_onto :
    (fuel k n : ℕ) (rest : Bytes)
    → n < tens k
    → length (digits_onto fuel n rest) ≤ suc k + length rest
unfolding digits_onto
length-digits_onto zero k n rest h = omega arith
length-digits_onto (suc fuel) zero n rest h = ground arith
length-digits_onto (suc fuel) (suc k) n rest h = elim (Bool-cases (ltb n 10)) [
  | inl small ↦ rw small (omega arith)
  | inr big ↦
      let less : n / 10 < tens k = omega arith in
      rw big (omega (arith, length-digits_onto fuel k (n / 10) ((b'0' + n % 10) ∷ rest) less))
]

-- The first byte is a digit.
abbrev StartsWithDigit : Bytes → Type 0
StartsWithDigit s = (c : ℕ) × (t : Bytes) × (s ≡ c ∷ t) × (c < 58)

digits_onto-digit :
    (fuel n c : ℕ) (t : Bytes) → c < 58 → StartsWithDigit (digits_onto fuel n (c ∷ t))
unfolding digits_onto
digits_onto-digit zero n c t h = (c, t, refl, h)
digits_onto-digit (suc fuel) n c t h = elim (Bool-cases (ltb n 10)) [
  | inl small ↦ rw small (b'0' + n % 10, c ∷ t, refl, omega arith)
  | inr big ↦ rw big (digits_onto-digit fuel (n / 10) (b'0' + n % 10) (c ∷ t) (omega arith))
]

decimal-digit : (n : ℕ) → StartsWithDigit (decimal n)
unfolding decimal digits_onto
decimal-digit n = elim (Bool-cases (ltb n 10)) [
  | inl small ↦ rw small (b'0' + n % 10, [], refl, omega arith)
  | inr big ↦ rw big (digits_onto-digit n (n / 10) (b'0' + n % 10) [] (omega arith))
]

length-decimal : (n : ℕ) → n < 2 ^ 31 → length (decimal n) ≤ 10
unfolding decimal
length-decimal n h = omega (arith, length-digits_onto (suc n) 9 n [] (omega arith))

-- The byte behind the number and the underscore.
group_end_name-byte :
    (nr idx : ℕ)
    → nr < 2 ^ 31
    → (c : ℕ) × (c < 58) × (get_elem? (group_end_name nr idx) (suc (length (decimal nr))) ≡ some c)
unfolding group_end_name
group_end_name-byte nr idx h =
    let (c, t, shape, digit) = decimal-digit idx in
    (
      c,
      digit,
      get_elem?-take 31 _ (suc (length (decimal nr))) (omega (arith, length-decimal nr h))
          ∙ rw shape (get_elem?-behind (decimal nr) _ b'_' c),
    )

success_name-byte :
    (nr : ℕ) → nr < 2 ^ 31 → get_elem? (success_name nr) (suc (length (decimal nr))) ≡ some b's'
unfolding success_name
success_name-byte nr h =
    get_elem?-take 31 _ (suc (length (decimal nr))) (omega (arith, length-decimal nr h))
    ∙ get_elem?-behind (decimal nr) (codes "uccess") b'_' b's'

pub group_end_name-success_name :
    (nr idx : ℕ) → nr < 2 ^ 31 → group_end_name nr idx ≢ success_name nr
group_end_name-success_name nr idx h e =
    let (c, digit, got) = group_end_name-byte nr idx h in
    let c-s : c ≡ b's' = some_inj (sym got ∙ (rw (sym e) at (success_name-byte nr h))) in
    absurd (omega arith)
