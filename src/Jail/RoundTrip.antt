-- ===== src/Jail/RoundTrip.antt =====
-- The pieces of a serialised jail are read back from the front of a buffer.
pub mod Lists
pub mod Whole
use minijail.Base.{
  ℕ, zero, suc, ◌+◌, ◌-◌, ◌*◌, ◌/◌, ◌%◌, ◌<◌, ◌≤◌, ◌^◌, Bool, true, false, List, [], ◌∷◌, ◌++◌,
  Option, none, some, if◌then◌else◌, ◌==◌, ltb, length, take, drop, Bytes, ◌≡◌, ◌≢◌, refl, sym, ap,
  ◌∙◌, arith, append_assoc, length-append,
}
use native.Mathlib.Nat.{pow-suc}
use minijail.Bpf.{Instr}
use minijail.Bpf.Labels.Placed.{All}
use minijail.Util.Buffer.{
  strnlen, consumebytes, consumestr, NoNul, consumestr-append, strnlen-append,
}
use minijail.Jail.Parse.{Parse, parsed, invalid, undefined, ◌>>=◌, >>=-step}
use minijail.Jail.Wire.{le_bytes, fd_bytes, instr_bytes, array_bytes}
use minijail.Jail.Wire.Encoding.{string_bytes, if_bytes, gids_bytes, filter_bytes, data_bytes}
use minijail.Jail.Unmarshal.{
  le_value, read_string, read_number, read_if, read_array, ngroups_max, ushrt_max, read_gids,
  read_instr, read_filter, read_data, copied_number,
}

length-le_bytes : (n x : ℕ) → length (le_bytes n x) ≡ n
unfolding le_bytes
length-le_bytes zero x = refl
length-le_bytes (suc n) x = ap suc (length-le_bytes n (x / 256))

-- A number that fits is its bytes.
le_value-le_bytes : (n x : ℕ) → x < 256 ^ n → le_value (le_bytes n x) ≡ x
unfolding le_value le_bytes
le_value-le_bytes zero x h = omega arith
le_value-le_bytes (suc n) x h =
    omega (arith, le_value-le_bytes n (x / 256) (omega (arith, pow-suc 256 n)))

pub take_exact : (xs rest : Bytes) → take (length xs) (xs ++ rest) ≡ xs
take_exact [] rest = refl
take_exact (x ∷ xs) rest = ap (◌∷◌ x) (take_exact xs rest)

pub drop_exact : (xs rest : Bytes) → drop (length xs) (xs ++ rest) ≡ rest
drop_exact [] rest = refl
drop_exact (x ∷ xs) rest = drop_exact xs rest

pub not_longer : (xs rest : Bytes) → ltb (length (xs ++ rest)) (length xs) ≡ false
not_longer xs rest = ground (arith, length-append xs rest)

pub consumebytes-exact : (s rest : Bytes) → consumebytes (length s) (s ++ rest) ≡ some (s, rest)
unfolding consumebytes
consumebytes-exact s rest = rw (not_longer s rest, take_exact s rest, drop_exact s rest) refl

-- `read` takes exactly the bytes off the front of any buffer and gives the value.
abbrev pub Reads {ℓ} : {A : Type ℓ} → (Bytes → Parse (A × Bytes)) → Bytes → A → Type ℓ
Reads read bytes a = (rest : Bytes) → read (bytes ++ rest) ≡ parsed (a, rest)

pub read_string-string_bytes : (s : Bytes) → NoNul s → Reads read_string (string_bytes s) s
unfolding read_string
read_string-string_bytes s h rest =
    rw
      (
        append_assoc s (0 ∷ []) rest,
        (consumestr-append s rest h).0,
        strnlen-append s [] h,
        take_exact s (0 ∷ []),
        read_string,
      )
      refl

consumebytes-le_bytes :
    (n x : ℕ) (rest : Bytes) → consumebytes n (le_bytes n x ++ rest) ≡ some (le_bytes n x, rest)
consumebytes-le_bytes n x rest =
    rw (length-le_bytes n x) at (consumebytes-exact (le_bytes n x) rest)

pub read_number-le_bytes : (n x : ℕ) → x < 256 ^ n → Reads (read_number n) (le_bytes n x) x
unfolding read_number
read_number-le_bytes n x h rest =
    rw (consumebytes-le_bytes n x rest, le_value-le_bytes n x h, read_number) refl

pub copied_number-le_bytes : (n x : ℕ) → x < 256 ^ n → Reads (copied_number n) (le_bytes n x) x
unfolding copied_number
copied_number-le_bytes n x h rest =
    rw (consumebytes-le_bytes n x rest, le_value-le_bytes n x h, copied_number) refl

abbrev pub NoNulIf : Option Bytes → Type 0
NoNulIf none = Unit
NoNulIf (some s) = NoNul s

-- The pointer that says whether there is a string is stale.
abbrev pub SameShape {ℓ} : {A : Type ℓ} → Option A → Option A → Type 0
SameShape none none = Unit
SameShape none (some a) = ⊥
SameShape (some a) none = ⊥
SameShape (some a) (some b) = Unit

pub read_if-if_bytes :
    (stale o : Option Bytes) → SameShape stale o → NoNulIf o → Reads (read_if stale) (if_bytes o) o
unfolding read_if
read_if-if_bytes none none e h rest = refl
read_if-if_bytes none (some s) e h rest = elim e [ ]
read_if-if_bytes (some t) none e h rest = elim e [ ]
read_if-if_bytes (some t) (some s) e h rest = rw (read_string-string_bytes s h rest) refl

pub read_array-array_bytes {ℓ} :
    {A : Type ℓ} (read : Bytes → Parse (A × Bytes)) (encode : A → Bytes) (xs : List A)
    → All (λ x. Reads read (encode x) x) xs
    → Reads (read_array read (length xs)) (array_bytes encode xs) xs
unfolding read_array array_bytes
read_array-array_bytes read encode [] h rest = refl
read_array-array_bytes read encode (x ∷ xs) (h, hs) rest =
    rw
      (
        append_assoc (encode x) (array_bytes encode xs) rest,
        h (array_bytes encode xs ++ rest),
        read_array-array_bytes read encode xs hs rest,
      )
      refl

abbrev pub IsGid : ℕ → Type 0
IsGid gid = gid < 256 ^ 4

abbrev pub AreGids : ℕ → Option (List ℕ) → Type 0
AreGids count none = Unit
AreGids count (some gids) = (count ≡ length gids) × (length gids ≤ ngroups_max) × All IsGid gids

gids-Reads :
    (gids : List ℕ) → All IsGid gids → All (λ x. Reads (read_number 4) (le_bytes 4 x) x) gids
gids-Reads [] h = tt
gids-Reads (g ∷ gids) (h, hs) = (read_number-le_bytes 4 g h, gids-Reads gids hs)

within : (a b : ℕ) → a ≤ b → ltb b a ≡ false
within a b h = ground arith

pub read_gids-gids_bytes :
    (stale gids : Option (List ℕ)) (count : ℕ)
    → SameShape stale gids
    → AreGids count gids
    → Reads (read_gids stale count) (gids_bytes gids) gids
unfolding read_gids
read_gids-gids_bytes none none count e h rest = refl
read_gids-gids_bytes none (some gids) count e h rest = elim e [ ]
read_gids-gids_bytes (some t) none count e h rest = elim e [ ]
read_gids-gids_bytes (some t) (some gids) count e (c, few, h) rest =
    rw
      (
        c,
        within (length gids) ngroups_max few,
        read_array-array_bytes (read_number 4) (le_bytes 4) gids (gids-Reads gids h) rest,
      )
      refl

-- The fields of an instruction fit into those of struct sock_filter.
abbrev pub FitsInstr : Instr → Type 0
FitsInstr i = (i.code < 256 ^ 2) × (i.jt < 256 ^ 1) × (i.jf < 256 ^ 1) × (i.k < 256 ^ 4)

read_instr-instr_bytes : (i : Instr) → FitsInstr i → Reads read_instr (instr_bytes i) i
unfolding read_instr instr_bytes
read_instr-instr_bytes i (c, t, f, k) rest =
    rw
      (
        append_assoc (le_bytes 2 i.code) (le_bytes 1 i.jt ++ (le_bytes 1 i.jf ++ le_bytes 4 i.k))
            rest,
        append_assoc (le_bytes 1 i.jt) (le_bytes 1 i.jf ++ le_bytes 4 i.k) rest,
        append_assoc (le_bytes 1 i.jf) (le_bytes 4 i.k) rest,
        read_number-le_bytes 2 i.code c _,
        read_number-le_bytes 1 i.jt t _,
        read_number-le_bytes 1 i.jf f _,
        read_number-le_bytes 4 i.k k rest,
      )
      refl

instrs-Reads :
    (filter : List Instr)
    → All FitsInstr filter
    → All (λ i. Reads read_instr (instr_bytes i) i) filter
instrs-Reads [] h = tt
instrs-Reads (i ∷ filter) (h, hs) = (read_instr-instr_bytes i h, instrs-Reads filter hs)

-- A program of a jail: its length is known and fits into an unsigned short.
abbrev pub IsProgram : ℕ → Option (List Instr) → Type 0
IsProgram filter_len none = filter_len ≡ 0
IsProgram filter_len (some filter) =
    (filter_len ≡ length filter) × (length filter ≤ ushrt_max) × All FitsInstr filter

-- The program that comes back: none where no filter is used, or where it is empty.
abbrev pub kept_filter : Bool → Option (List Instr) → Option (List Instr)
kept_filter true (some (i ∷ filter)) = some (i ∷ filter)
kept_filter true _ = none
kept_filter false filter = none

positive : (n : ℕ) → ltb 0 (suc n) ≡ true
positive n = ground arith

pub read_filter-filter_bytes :
    (b : Bool) (filter : Option (List Instr)) (filter_len : ℕ)
    → IsProgram filter_len filter
    → Reads (read_filter b filter_len) (filter_bytes b filter) (kept_filter b filter)
unfolding read_filter array_bytes
read_filter-filter_bytes false none n h rest = refl
read_filter-filter_bytes false (some filter) n h rest = refl
read_filter-filter_bytes true none n h rest = rw h refl
read_filter-filter_bytes true (some []) n (e, few, h) rest = rw e refl
read_filter-filter_bytes true (some (i ∷ filter)) n (e, few, h) rest =
    rw
      (
        e,
        within (length (i ∷ filter)) ushrt_max few,
        positive (length filter),
        read_array-array_bytes read_instr instr_bytes (i ∷ filter) (instrs-Reads (i ∷ filter) h)
            rest,
      )
      refl

abbrev pub IsOptions : Option Bytes → Type 0
IsOptions none = Unit
IsOptions (some options) = NoNul options

pub read_data-data_bytes : (o : Option Bytes) → IsOptions o → Reads read_data (data_bytes o) o
unfolding read_data
read_data-data_bytes none h rest = rw (read_number-le_bytes 4 0 (omega arith) rest) refl
read_data-data_bytes (some options) h rest =
    rw
      (
        append_assoc (le_bytes 4 1) (string_bytes options) rest,
        read_number-le_bytes 4 1 (omega arith) (string_bytes options ++ rest),
        read_string-string_bytes options h rest,
      )
      refl
