-- ===== src/Util/Number.antt =====
-- What util.c and syscall_filter.c use of strtol(3), strtoul(3) and strtoull(3). A long is its
-- 64-bit pattern.
use minijail.Base.{
  ℕ, ◌+◌, ◌-◌, ◌*◌, ◌%◌, ◌^◌, Bool, true, false, ◌&&◌, ◌||◌, [], ◌∷◌, Option, none, some,
  if◌then◌else◌, ◌==◌, ltb, leb, Bytes,
}

abbrev pub within : ℕ → ℕ → ℕ → Bool
within lo hi c = leb lo c && leb c hi

unfoldable pub is_space : ℕ → Bool
is_space c = c == b' ' || within b'\t' b'\r' c

abbrev pub digit_value : ℕ → ℕ
digit_value c =
    if within b'0' b'9' c
    then c - b'0'
    else if within b'a' b'z' c
    then c - b'a' + 10
    else if within b'A' b'Z' c
    then c - b'A' + 10
    else 36

abbrev pub is_digit : ℕ → ℕ → Bool
is_digit base c = ltb (digit_value c) base

unfoldable pub skip_spaces : Bytes → Bytes
unfolding is_space
skip_spaces [] = []
skip_spaces (c ∷ s) = let rest = skip_spaces s in if is_space c then rest else c ∷ s

-- The value of the digits at the front, and what stands behind them.
unfoldable pub read_digits : ℕ → ℕ → Bytes → ℕ × Bytes
read_digits base value [] = (value, [])
read_digits base value (c ∷ s) =
    let more = read_digits base (value * base + digit_value c) s in
    if is_digit base c then more else (value, c ∷ s)

unfoldable pub starts_with_digit : ℕ → Bytes → Bool
starts_with_digit base [] = false
starts_with_digit base (c ∷ s) = is_digit base c

unfoldable pub read_sign : Bytes → Bool × Bytes
read_sign [] = (false, [])
read_sign (c ∷ s) =
    if c == b'-' then (true, s) else if c == b'+' then (false, s) else (false, c ∷ s)

-- For base 0: "0x" in front of a hexadecimal digit means 16, another "0" means 8, else it is 10.
unfoldable pub read_base : ℕ → Bytes → ℕ × Bytes
unfolding starts_with_digit
read_base base (z ∷ x ∷ s) =
    if base == 0
    then if z == b'0'
      then if (x == b'x' || x == b'X') && starts_with_digit 16 s then (16, s) else (8, z ∷ x ∷ s)
      else (10, z ∷ x ∷ s)
    else (base, z ∷ x ∷ s)
read_base base s = (if base == 0 then 10 else base, s)

-- Sign, magnitude and rest, none if there are no digits.
unfoldable pub scan : ℕ → Bytes → Option (Bool × ℕ × Bytes)
unfolding skip_spaces read_sign read_base starts_with_digit read_digits
scan base s =
    let (negative, unsigned) = read_sign (skip_spaces s) in
    let (base', digits) = read_base base unsigned in
    let (value, rest) = read_digits base' 0 digits in
    if starts_with_digit base' digits then some (negative, value, rest) else none

-- Whether errno is ERANGE, and at which end.
pub data Range : Type 0 where
  in_range too_big too_small : Range

pub record Conversion : Type 0 where
  pub value : ℕ
  pub rest : Bytes
  pub range : Range

abbrev pub negated : Bool → ℕ → ℕ
negated negative m = if negative then (2 ^ 64 - m) % 2 ^ 64 else m

abbrev pub conversion : ℕ → Bytes → Range → Conversion
conversion v r e = record { value = v; rest = r; range = e }

unfoldable pub strtol : ℕ → Bytes → Conversion
unfolding scan
strtol base s = elim (scan base s) [
  | none ↦ conversion 0 s in_range
  | some (negative, m, rest) ↦
      if negative
      then if leb m (2 ^ 63)
        then conversion (negated true m) rest in_range
        else conversion (2 ^ 63) rest too_small
      else if ltb m (2 ^ 63)
      then conversion m rest in_range
      else conversion (2 ^ 63 - 1) rest too_big
]

-- strtoul(3), and strtoull(3) where both are 64 bits wide.
unfoldable pub strtoul : ℕ → Bytes → Conversion
unfolding scan
strtoul base s = elim (scan base s) [
  | none ↦ conversion 0 s in_range
  | some (negative, m, rest) ↦
      if ltb m (2 ^ 64)
      then conversion (negated negative m) rest in_range
      else conversion (2 ^ 64 - 1) rest too_big
]
