-- ===== src/Util/Text.antt =====
-- The string functions of util.c, and strtok_r and strstr of the C library.
pub mod Tokens
pub mod Strip
pub mod Paren
use minijail.Base.{
  ℕ, zero, suc, ◌+◌, ◌-◌, Bool, true, false, not, ◌&&◌, ◌||◌, List, [], ◌∷◌, ◌++◌, Option, none,
  some, if◌then◌else◌, ◌==◌, length, drop, Bytes, starts_with,
}
use mathlib.Core.Option

-- isblank(3) and, in `strip`, a newline too.
abbrev pub is_blank : ℕ → Bool
is_blank c = c == b' ' || c == b'\t'

abbrev pub is_blank_or_newline : ℕ → Bool
is_blank_or_newline c = is_blank c || c == b'\n'

unfoldable pub strip_front : Bytes → Bytes
strip_front [] = []
strip_front (c ∷ s) = let rest = strip_front s in if is_blank c then rest else c ∷ s

-- The loop from the last character backwards.
unfoldable pub strip_back : Bytes → Bytes
strip_back [] = []
strip_back (c ∷ s) = elim (strip_back s) [
  | [] ↦ if is_blank_or_newline c then [] else c ∷ []
  | x ∷ r ↦ c ∷ x ∷ r
]

unfoldable pub strip : Bytes → Bytes
strip s = strip_back (strip_front s)

-- strstr(3) for a needle that is not empty: what stands before its first occurrence, and behind it.
unfoldable pub strstr : Bytes → Bytes → Option (Bytes × Bytes)
strstr delim [] = none
strstr delim (c ∷ s) =
    let later = Option.map (λ r. (c ∷ r.0, r.1)) (strstr delim s) in
    if starts_with delim (c ∷ s) then some ([], drop (length delim) (c ∷ s)) else later

-- The token and the new `*stringp`.
unfoldable pub tokenize : Option Bytes → Bytes → Option Bytes × Option Bytes
tokenize none delim = (none, none)
tokenize (some s) [] = (some s, none)
tokenize (some s) (x ∷ delim) = elim (strstr (x ∷ delim) s) [
  | none ↦ (some s, none)
  | some (before, behind) ↦ (some before, some behind)
]

-- `while ((group = tokenize(&s, delim)) != NULL)`, with fuel for the rounds.
unfoldable pub tokens : ℕ → Option Bytes → Bytes → List Bytes
tokens zero s delim = []
tokens (suc n) s delim =
    let (found, rest) = tokenize s delim in
    elim found [ none ↦ [] | some token ↦ token ∷ tokens n rest delim ]

-- Each round but the last takes at least one byte, and one more round finds NULL.
unfoldable pub tokenize_all : Option Bytes → Bytes → List Bytes
tokenize_all none delim = []
tokenize_all (some s) delim = tokens (suc (suc (length s))) (some s) delim

-- The walk of `tokenize_parenthesized_expression` with `depth` open parentheses: the inside, and
-- what stands behind the closing one.
unfoldable pub close_paren : ℕ → Bytes → Option (Bytes × Bytes)
close_paren depth [] = none
close_paren depth (c ∷ s) =
    let depth' = if c == b'(' then depth + 1 else if c == b')' then depth - 1 else depth in
    let later = Option.map (λ r. (c ∷ r.0, r.1)) (close_paren depth' s) in
    if c == b')' && depth' == 0 then some ([], s) else later

unfoldable pub tokenize_parenthesized_expression : Bytes → Option (Bytes × Bytes)
tokenize_parenthesized_expression [] = none
tokenize_parenthesized_expression (c ∷ s) = if c == b'(' then close_paren 1 s else none

-- strtok_r(3) with one delimiter: the token and the rest, none where only delimiters are left.
unfoldable pub span_token : ℕ → Bytes → Bytes × Bytes
span_token delim [] = ([], [])
span_token delim (c ∷ s) =
    let (token, rest) = span_token delim s in if c == delim then ([], s) else (c ∷ token, rest)

unfoldable pub strtok : ℕ → Bytes → Option (Bytes × Bytes)
strtok delim [] = none
strtok delim (c ∷ s) =
    let rest = strtok delim s in if c == delim then rest else some (span_token delim (c ∷ s))

-- strsep(3) with one delimiter, for a string that is not NULL: the token, and the new `*stringp`.
unfoldable pub strsep : ℕ → Bytes → Bytes × Option Bytes
strsep delim [] = ([], none)
strsep delim (c ∷ s) =
    let (token, rest) = strsep delim s in if c == delim then ([], some s) else (c ∷ token, rest)
