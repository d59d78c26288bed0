-- ===== src/Util/Buffer.antt =====
-- `consumebytes`, `consumestr`, `path_join` and `path_is_parent` of util.c.
use minijail.Base.{
  ℕ, suc, ◌+◌, Bool, false, ◌&&◌, ◌||◌, [], ◌∷◌, ◌++◌, Option, none, some, if◌then◌else◌, ◌==◌, ltb,
  length, get_elem?, take, drop, Bytes, starts_with, ◌≡◌, ◌≢◌, refl, ap, arith, length-append,
}

-- A buffer with `*buflength` bytes is the list of them. The bytes that the result points at, and
-- the rest of the buffer.
unfoldable pub consumebytes : ℕ → Bytes → Option (Bytes × Bytes)
consumebytes length' buf =
    if ltb (length buf) length' then none else some (take length' buf, drop length' buf)

-- strnlen(3)
unfoldable pub strnlen : Bytes → ℕ
strnlen [] = 0
strnlen (c ∷ s) = let rest = strnlen s in if c == 0 then 0 else suc rest

-- The bytes with the NUL that ends them.
unfoldable pub consumestr : Bytes → Option (Bytes × Bytes)
unfolding strnlen
consumestr buf =
    let len = strnlen buf in if len == length buf then none else consumebytes (len + 1) buf

unfoldable pub path_join : Bytes → Bytes → Bytes
path_join external_path internal_path = external_path ++ (b'/' ∷ internal_path)

-- `s[i] == c`
unfoldable pub byte_at : Bytes → ℕ → ℕ → Bool
byte_at s i c = elim (get_elem? s i) [ none ↦ false | some x ↦ x == c ]

-- For an empty `parent` the source reads the byte in front of the string: `before` here.
unfoldable pub last_is_slash : ℕ → Bytes → Bool
unfolding byte_at
last_is_slash before [] = before == b'/'
last_is_slash before (c ∷ s) = byte_at (c ∷ s) (length s) b'/'

unfoldable pub path_is_parent : ℕ → Bytes → Bytes → Bool
unfolding byte_at last_is_slash
path_is_parent before parent child =
    starts_with parent child
    && (if ltb (length parent) (length child)
        then last_is_slash before parent || byte_at child (length parent) b'/'
        else false)

-- No byte of the string is NUL.
abbrev pub NoNul : Bytes → Type 0
NoNul [] = Unit
NoNul (c ∷ s) = (c ≢ 0) × NoNul s

pub strnlen-append : (s rest : Bytes) → NoNul s → strnlen (s ++ (0 ∷ rest)) ≡ length s
unfolding strnlen
strnlen-append [] rest h = refl
strnlen-append (c ∷ s) rest (h, hs) = ground (arith, strnlen-append s rest hs)

strnlen-NoNul : (s : Bytes) → NoNul s → strnlen s ≡ length s
unfolding strnlen
strnlen-NoNul [] h = refl
strnlen-NoNul (c ∷ s) (h, hs) = ground (arith, strnlen-NoNul s hs)

take-length : (s rest : Bytes) → take (suc (length s)) (s ++ (0 ∷ rest)) ≡ s ++ (0 ∷ [])
take-length [] rest = refl
take-length (c ∷ s) rest = ap (◌∷◌ c) (take-length s rest)

drop-length : (s rest : Bytes) → drop (suc (length s)) (s ++ (0 ∷ rest)) ≡ rest
drop-length [] rest = refl
drop-length (c ∷ s) rest = drop-length s rest

-- A string that ends with its NUL is read back from the front of any buffer, and the rest of the
-- buffer is left; a buffer without a NUL gives none.
pub consumestr-append :
    (s rest : Bytes)
    → NoNul s
    → (consumestr (s ++ (0 ∷ rest)) ≡ some (s ++ (0 ∷ []), rest)) × (consumestr s ≡ none)
unfolding consumestr consumebytes
consumestr-append s rest h =
    let one : length s + 1 ≡ suc (length s) = omega arith in
    (
      rw (strnlen-append s rest h, one, take-length s rest, drop-length s rest)
          (ground (arith, length-append s (0 ∷ rest))),
      rw (strnlen-NoNul s h) (ground arith),
    )
