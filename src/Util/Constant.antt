-- ===== src/Util/Constant.antt =====
-- `parse_single_constant` and `parse_constant` of util.c.
pub mod Fuel
use minijail.Base.{
  ℕ, zero, suc, ◌+◌, ◌-◌, ◌%◌, ◌^◌, bit_or, Bool, true, false, not, List, [], ◌∷◌, Option, none,
  some, if◌then◌else◌, ◌==◌, length, Bytes,
}
use minijail.Util.Number.{Range, in_range, too_big, too_small, Conversion, strtol, strtoul}
use minijail.Util.Syscall.{ConstantEntry, lookup_constant}
use minijail.Util.Text.{tokenize, tokenize_parenthesized_expression}

-- The value if the number `s` ends where it should: an `endptr` that is left at the start of the
-- string means an error.
whole_number : Bytes → Conversion → Option ℕ
whole_number s r = elim r.rest [ [] ↦ elim s [ [] ↦ none | _ ∷ _ ↦ some r.value ] | _ ∷ _ ↦ none ]

unsigned_number : Bytes → Conversion → Option ℕ
unfolding whole_number
unsigned_number s r = elim r.range [ in_range ↦ whole_number s r | _ ↦ none ]

-- The value of the constant, none where `*endptr` is left at its start, as it is for the empty
-- string even if the table has that name.
unfoldable pub parse_single_constant : List ConstantEntry → Bytes → Option ℕ
unfolding lookup_constant strtol strtoul whole_number unsigned_number
parse_single_constant table s =
    let r = strtol 0 s in
    elim (lookup_constant table s) [
      | some value ↦ elim s [ [] ↦ none | _ ∷ _ ↦ some value ]
      | none ↦ elim r.range [
        | in_range ↦ whole_number s r
        | too_big ↦ unsigned_number s (strtoul 0 s)
        | too_small ↦ none
      ]
    ]

-- `failed` is an `*endptr` that is left at the start. The loop has fuel for its rounds.
pub data Parsed : Type 0 where
  parsed : ℕ → Parsed
  failed out_of_fuel : Parsed

-- `~current_value` of a long.
abbrev pub invert : Bool → ℕ → ℕ
invert negate v = if negate then 2 ^ 64 - 1 - v % 2 ^ 64 else v % 2 ^ 64

unfoldable pub starts_with_paren : Bytes → Bool
starts_with_paren [] = false
starts_with_paren (c ∷ s) = c == b'('

-- What the loop goes on with behind a parenthesis: another "|" and more, or the end.
unfoldable pub behind_paren : Bytes → Option Bytes
behind_paren [] = some []
behind_paren (c ∷ []) = none
behind_paren (c ∷ d ∷ s) = if c == b'|' then some (d ∷ s) else none

unfoldable pub drop_tilde : Bytes → Bool × Bytes
drop_tilde [] = (false, [])
drop_tilde (c ∷ s) = if c == b'~' then (true, s) else (false, c ∷ s)

-- The two kinds of terms. `go_on` is the loop at the rest of the string, with the new value, and
-- `inner` is the call on the inside of parentheses.
module _ (go_on : Option Bytes → ℕ → Parsed) (value : ℕ) (negate : Bool) where
  unfoldable pub close_term : Bytes → Parsed → Parsed
  close_term behind failed = failed
  close_term behind out_of_fuel = out_of_fuel
  close_term behind (parsed v) = elim (behind_paren behind) [
    | none ↦ failed
    | some rest ↦ go_on (some rest) (bit_or value (invert negate v))
  ]

  unfoldable pub paren_term : (Bytes → Parsed) → Option (Bytes × Bytes) → Parsed
  paren_term inner none = failed
  paren_term inner (some ([], behind)) = failed
  paren_term inner (some (g ∷ group, behind)) = close_term behind (inner (g ∷ group))

  unfoldable pub single_term : Option ℕ → Option Bytes → Parsed
  single_term none rest = failed
  single_term (some v) rest = go_on rest (bit_or value (invert negate v))

-- The result of `parse_single_constant` on the token of `tokenize`, which is not NULL.
unfoldable pub single_constant : List ConstantEntry → Option Bytes → Option ℕ
single_constant table none = none
single_constant table (some group) = parse_single_constant table group

module _ (table : List ConstantEntry) where
  -- The loop of `parse_constant` at a string that may be NULL, with the value so far.
  unfoldable pub parse_terms : ℕ → Option Bytes → ℕ → Parsed
  parse_terms zero s value = out_of_fuel
  parse_terms (suc n) none value = parsed value
  parse_terms (suc n) (some []) value = parsed value
  parse_terms (suc n) (some (c ∷ s)) value =
      let (negate, t) = drop_tilde (c ∷ s) in
      let (group, rest) = tokenize (some t) (b'|' ∷ []) in
      elim (starts_with_paren t) [
        | true ↦
            paren_term (parse_terms n) value negate (λ g. parse_terms n (some g) 0)
              (tokenize_parenthesized_expression t)
        | false ↦ single_term (parse_terms n) value negate (single_constant table group) rest
      ]

  unfoldable pub parse_constant : Bytes → Parsed
  unfolding parse_terms
  parse_constant [] = failed
  parse_constant (c ∷ s) = parse_terms (suc (suc (length s))) (some (c ∷ s)) 0
