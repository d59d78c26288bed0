-- ===== src/Util/Size.antt =====
-- `parse_size` of util.c, where long is 64 bits wide.
use minijail.Base.{
  ℕ, ◌-◌, ◌*◌, ◌/◌, ◌%◌, ◌^◌, Bool, not, [], ◌∷◌, none, some, if◌then◌else◌, ◌==◌, leb, length,
  get_elem?, Bytes, codes,
}
use minijail.Util.Number.{in_range, Conversion, strtoul}

abbrev pub einval : ℕ
einval = 22

abbrev pub erange : ℕ
erange = 34

-- What a call returns: 0 with `*result` set, or the number whose negative it returns, with
-- `*result` left alone. That number is 0 too if it is an errno that nothing has set.
pub data SizeResult : Type 0 where
  success : ℕ → SizeResult
  negative : ℕ → SizeResult

-- The loop over `prefixes`, from the factor of the prefix in front.
unfoldable pub prefix_multiplier : Bytes → ℕ → ℕ → ℕ
prefix_multiplier [] factor c = 1
prefix_multiplier (p ∷ prefixes) factor c =
    let later = prefix_multiplier prefixes (1024 * factor) c in
    if c == p then 1024 * factor else later

-- The factor that the last byte stands for, 1 for a byte that is no prefix.
unfoldable pub multiplier_of : Bytes → ℕ
unfolding prefix_multiplier
multiplier_of sizespec = elim (get_elem? sizespec (length sizespec - 1)) [
  | none ↦ 1
  | some c ↦ prefix_multiplier (codes "KMGTPE") 1 c
]

-- errno behind strtoull(3), which sets it only on overflow.
unfoldable pub errno_behind : ℕ → Conversion → ℕ
errno_behind errno r = elim r.range [ in_range ↦ errno | _ ↦ erange ]

-- The product, if it fits.
unfoldable pub scaled : ℕ → ℕ → SizeResult
scaled size multiplier =
    let nsize = size * multiplier % 2 ^ 64 in
    if not (nsize / multiplier == size) then negative erange else success nsize

-- `end` where the number should end: in front of a prefix, or at the end.
abbrev pub ends_well : ℕ → Conversion → Bool
ends_well multiplier r = if multiplier == 1 then length r.rest == 0 else length r.rest == 1

unfoldable pub parse_size : ℕ → Bytes → SizeResult
unfolding errno_behind
parse_size errno [] = negative einval
parse_size errno (c ∷ s) =
    let sizespec = c ∷ s in
    let multiplier = multiplier_of sizespec in
    let r = strtoul 10 sizespec in
    if c == b'-'
    then negative einval
    else if r.value == 2 ^ 64 - 1
    then negative (errno_behind errno r)
    else if leb (2 ^ 64 - 1) r.value
    then negative erange
    else if not (ends_well multiplier r)
    then negative einval
    else scaled r.value multiplier
