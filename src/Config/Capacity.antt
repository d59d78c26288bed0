-- ===== src/Config/Capacity.antt =====
-- The array of a list of entries is never written behind its end.
use minijail.Base.{
  ℕ, zero, suc, ◌+◌, ◌*◌, ◌/◌, ◌%◌, ◌&&◌, ◌==◌, ◌^◌, ◌≤◌, ◌<◌, Bool, true, List, [], ◌∷◌, some,
  some_inj, length, length-append, ltb, Bytes, ◌≡◌, ◌≢◌, refl, ap, arith, Bool-cases, Option-cases,
  inl, inr,
}
use mathlib.Core.Path.{subst}
use minijail.Util.Text.{strip}
use minijail.Util.Lines.{getmultiline, read_lines, read_all}
use minijail.Jail.Errno.{enomem}
use minijail.Config.{
  ConfigEntry, ConfigEntryList, ConfigReading, parsed, refused, lost, overrun,
  new_config_entry_list, make_room, has_room, push_entry, read_config_line, read_config_lines,
  and_then, shrink, finish, list_default_size, entry_size, size_of_list, parse_config_file,
  parse_config_line, is_skipped, match_special_directive,
}

-- `used` entries stand in an array for `allocated` of them, and the next one may be written.
abbrev pub HasNext : ℕ → ℕ → Type 0
HasNext used allocated = (used < allocated) × (allocated ≤ 2 * used + 100)

-- The array may be full, and is never empty.
abbrev pub HasCapacity : ConfigEntryList → Type 0
HasCapacity list =
    (0 < list.num_allocated)
    × (length list.entries ≤ list.num_allocated)
    × (list.num_allocated ≤ 2 * length list.entries + 100)

double :
    (used allocated : ℕ)
    → used < 2 ^ 58
    → 0 < allocated
    → used ≤ allocated
    → allocated ≤ used
    → HasNext used (allocated * 2 % 2 ^ 64)
double used allocated few some_room within full = ground arith

pub fits :
    (used allocated : ℕ)
    → used < 2 ^ 58
    → HasNext used allocated
    → ltb used (allocated * 16 % 2 ^ 64 / 16) ≡ true
fits used allocated few (next, most) = ground arith

suc_later : (n m : ℕ) → n + suc m ≡ suc n + m
suc_later n m = omega arith

module _ (available : ℕ → Bool) where
  pub make_room-entries :
      (list : ConfigEntryList) → (make_room available list).1.entries ≡ list.entries
  unfolding make_room
  make_room-entries list = elim (Bool-cases (ltb (length list.entries) list.num_allocated)) [
    | inl e ↦ rw e refl
    | inr e ↦ rw e refl
  ]

  pub make_room-HasNext :
      (list : ConfigEntryList)
      → length list.entries < 2 ^ 58
      → HasCapacity list
      → let list' = (make_room available list).1 in
        HasNext (length list'.entries) list'.num_allocated
  unfolding make_room
  make_room-HasNext list few (some_room, within, most) =
      elim (Bool-cases (ltb (length list.entries) list.num_allocated)) [
        | inl e ↦ rw e (ground arith, most)
        | inr e ↦
            rw e
              (double (length list.entries) list.num_allocated few some_room within (ground arith))
      ]

  -- What a reading leaves: at most `n` entries, in an array that has room for them.
  abbrev pub IsWithin : ℕ → ConfigReading → Type 0
  IsWithin n (parsed list) = HasCapacity list × (length list.entries ≤ n)
  IsWithin n overrun = ⊥
  IsWithin n reading = Unit

  push_entry-IsWithin :
      (n : ℕ) (list : ConfigEntryList) (entry : ConfigEntry)
      → length list.entries ≤ n
      → n < 2 ^ 58
      → HasNext (length list.entries) list.num_allocated
      → IsWithin (suc n) (push_entry available list entry)
  unfolding push_entry has_room
  push_entry-IsWithin n list entry at_most few next =
      let added = length-append list.entries (entry ∷ []) in
      rw (fits (length list.entries) list.num_allocated (omega arith) next)
        (((omega arith), ground (arith, added), ground (arith, added)), ground (arith, added))

  pub read_config_line-IsWithin :
      (n : ℕ) (list : ConfigEntryList) (line : Bytes)
      → length list.entries ≤ n
      → n < 2 ^ 58
      → HasCapacity list
      → IsWithin (suc n) (read_config_line available list line)
  unfolding read_config_line
  read_config_line-IsWithin n list line at_most few capacity = elim (Bool-cases (is_skipped line)) [
    | inl skipped ↦ rw skipped (capacity, omega arith)
    | inr kept ↦ rw kept (elim (Bool-cases (make_room available list).0) [
      | inr refusal ↦ rw refusal tt
      | inl given ↦ elim (Option-cases (parse_config_line line)) [
        | inl bad ↦ rw (given, bad) tt
        | inr (entry, good) ↦
            let room = make_room-HasNext list (omega arith) capacity in
            let entries = ap length (make_room-entries list) in
            rw (given, good) (push_entry-IsWithin n _ entry (omega (arith, entries)) few room)
      ]
    ])
  ]

  and_then-IsWithin :
      (n m : ℕ) (r : ConfigReading) (rest : ConfigEntryList → ConfigReading)
      → IsWithin n r
      → ((list : ConfigEntryList) → IsWithin n (parsed list) → IsWithin m (rest list))
      → IsWithin m (and_then r rest)
  and_then-IsWithin n m (parsed list) rest w later = later list w
  and_then-IsWithin n m (refused list) rest w later = tt
  and_then-IsWithin n m (lost returned list) rest w later = tt
  and_then-IsWithin n m overrun rest w later = w

  read_config_lines-IsWithin :
      (n : ℕ) (list : ConfigEntryList) (lines : List Bytes)
      → length list.entries ≤ n
      → n + length lines < 2 ^ 58
      → HasCapacity list
      → IsWithin (n + length lines) (read_config_lines available list lines)
  unfolding read_config_lines
  read_config_lines-IsWithin n list [] at_most few capacity = (capacity, omega arith)
  read_config_lines-IsWithin n list (line ∷ lines) at_most few capacity =
      and_then-IsWithin (suc n) (n + suc (length lines))
        (read_config_line available list (strip line)) _
        (read_config_line-IsWithin n list (strip line) at_most (omega arith) capacity)
        (λ list' (capacity', at_most').
          rw (suc_later n (length lines))
            (read_config_lines-IsWithin (suc n) list' lines at_most' (omega arith) capacity'))

  shrink-within : (list : ConfigEntryList) → shrink available list ≢ overrun
  unfolding shrink
  shrink-within list e = ground (arith, e)

  finish-within :
      (n errno : ℕ) (r : ConfigReading) → IsWithin n r → finish available errno r ≢ overrun
  finish-within n errno (parsed list) w e = elim (Bool-cases (errno == enomem)) [
    | inl out_of_memory ↦ cc (rw out_of_memory at e)
    | inr fine ↦ shrink-within list (rw fine at e)
  ]
  finish-within n errno (refused list) w e = cc
  finish-within n errno (lost returned list) w e = cc
  finish-within n errno overrun w e = w

  pub new-capacity :
      (list : ConfigEntryList)
      → new_config_entry_list available ≡ some list
      → HasCapacity list × (length list.entries ≡ 0)
  unfolding new_config_entry_list
  new-capacity list e =
      elim (Bool-cases (available (list_default_size * entry_size) && available size_of_list)) [
        | inr no_memory ↦ absurd (cc (rw no_memory at e))
        | inl memory ↦
            subst (λ l. HasCapacity l × (length l.entries ≡ 0)) (some_inj (rw memory at e))
              ((omega arith, omega arith, omega arith), refl)
      ]

length-read_lines : (n : ℕ) (stream : List Bytes) → length (read_lines n stream) ≤ n
unfolding read_lines
length-read_lines zero stream = omega arith
length-read_lines (suc n) stream = elim (Option-cases (getmultiline stream)) [
  | inl end ↦ rw (end, length) (omega arith)
  | inr ((line, rest), e) ↦
      let shorter = length-read_lines n rest in rw (e, length) (omega (arith, shorter))
]

pub length-read_all : (stream : List Bytes) → length (read_all stream) ≤ suc (length stream)
unfolding read_all
length-read_all stream = length-read_lines (suc (length stream)) stream

-- Whatever memory there is, parse_config_file never writes an entry behind the end of the array of
-- a list that new_config_entry_list made, for a file of fewer than 2 ^ 57 lines.
pub parse_config_file-safe :
    (available : ℕ → Bool) (errno : ℕ) (stream : List Bytes) (list : ConfigEntryList)
    → new_config_entry_list available ≡ some list
    → length stream < 2 ^ 57
    → parse_config_file available errno stream list ≢ overrun
unfolding parse_config_file
parse_config_file-safe available errno [] list new few e = cc
parse_config_file-safe available errno (line ∷ stream) list new few e =
    elim (Bool-cases (match_special_directive line)) [
      | inr other ↦ cc (rw other at e)
      | inl matches ↦
          let (capacity, none_yet) = new-capacity available list new in
          let lines = length-read_all stream in
          let within =
            read_config_lines-IsWithin available 0 list (read_all stream) (omega (arith, none_yet))
              (omega (arith, lines, few)) capacity in
          finish-within available _ errno _ within (rw matches at e)
    ]
