-- ===== src/Config/Reference.antt =====
-- What a configuration file gives, without the array that it is read into.
use mathlib.Core.Option
use minijail.Base.{
  ℕ, suc, ◌+◌, ◌*◌, ◌%◌, ◌^◌, ◌≤◌, ◌<◌, ◌==◌, Bool, true, false, List, [], ◌∷◌, ◌++◌, append_assoc,
  append-nil, Option, none, some, if◌then◌else◌, length, ltb, Bytes, ◌≡◌, ◌≢◌, refl, sym, ap, ◌∙◌,
  arith, Bool-cases, Option-cases, inl, inr, ==_iff,
}
use minijail.Util.Text.{strip}
use minijail.Util.Lines.{read_all}
use minijail.Jail.Errno.{enomem}
use minijail.Config.{
  ConfigEntry, ConfigEntryList, ConfigReading, parsed, refused, lost, overrun,
  new_config_entry_list, make_room, has_room, push_entry, read_config_line, read_config_lines,
  shrink, finish, entry_size, parse_config_file, parse_config_line, is_skipped,
  match_special_directive,
}
use minijail.Config.Capacity.{
  HasCapacity, fits, make_room-HasNext, make_room-entries, read_config_line-IsWithin, new-capacity,
  length-read_all,
}

-- The entries of the lines in their order: a blank line and a comment have none, and there are no
-- entries if one of the other lines cannot be parsed.
abbrev pub entries_of : List Bytes → Option (List ConfigEntry)
entries_of [] = some []
entries_of (line ∷ lines) =
    let rest = entries_of lines in
    if is_skipped (strip line) then rest else elim (parse_config_line (strip line)) [
      | none ↦ none
      | some entry ↦ Option.map (λ (es : List ConfigEntry). entry ∷ es) rest
    ]

-- The entries of a reading that returned true with them.
abbrev pub entries_read : ConfigReading → Option (List ConfigEntry)
entries_read (parsed list) = some list.entries
entries_read reading = none

behind : List ConfigEntry → Option (List ConfigEntry) → Option (List ConfigEntry)
behind front es = Option.map (λ (r : List ConfigEntry). front ++ r) es

behind-add :
    (front : List ConfigEntry) (entry : ConfigEntry) (es : Option (List ConfigEntry))
    → behind (front ++ (entry ∷ [])) es
      ≡ behind front (Option.map (λ (r : List ConfigEntry). entry ∷ r) es)
unfolding behind
behind-add front entry none = refl
behind-add front entry (some es) = ap some (append_assoc front (entry ∷ []) es)

behind-nothing :
    (front : List ConfigEntry) (es : Option (List ConfigEntry))
    → length front ≡ 0
    → behind front es ≡ es
unfolding behind
behind-nothing [] none e = refl
behind-nothing [] (some es) e = refl
behind-nothing (entry ∷ front) es e = absurd (omega (arith, e))

module _ (available : ℕ → Bool) (enough : (size : ℕ) → available size ≡ true) where
  make_room-given : (list : ConfigEntryList) → (make_room available list).0 ≡ true
  unfolding make_room
  make_room-given list = elim (Bool-cases (ltb (length list.entries) list.num_allocated)) [
    | inl e ↦ rw e refl
    | inr e ↦ rw e (enough _)
  ]

  skips :
      (list : ConfigEntryList) (line : Bytes)
      → is_skipped line ≡ true
      → read_config_line available list line ≡ parsed list
  unfolding read_config_line
  skips list line e = rw e refl

  refuses :
      (list : ConfigEntryList) (line : Bytes)
      → is_skipped line ≡ false
      → parse_config_line line ≡ none
      → read_config_line available list line ≡ refused (make_room available list).1
  unfolding read_config_line
  refuses list line e f = rw (e, f, make_room-given list) refl

  adds :
      (list : ConfigEntryList) (line : Bytes) (entry : ConfigEntry)
      → length list.entries < 2 ^ 58
      → HasCapacity list
      → is_skipped line ≡ false
      → parse_config_line line ≡ some entry
      → read_config_line available list line
        ≡ parsed (record {
          entries = (make_room available list).1.entries ++ (entry ∷ []);
          num_allocated = (make_room available list).1.num_allocated;
        })
  unfolding read_config_line push_entry has_room
  adds list line entry few capacity e f =
      let entries = ap length (make_room-entries available list) in
      let room =
        fits _ _ (omega (arith, entries)) (make_room-HasNext available list few capacity) in
      rw (e, f, make_room-given list, room) refl

  shrink-keeps : (list : ConfigEntryList) → entries_read (shrink available list) ≡ some list.entries
  unfolding shrink
  shrink-keeps list = elim (Bool-cases (ltb (length list.entries) list.num_allocated)) [
    | inr full ↦ rw full refl
    | inl spare ↦ elim (Bool-cases (length list.entries == 0)) [
      | inl empty ↦ rw (spare, empty) refl
      | inr some_there ↦
          rw (spare, some_there, enough (length list.entries * entry_size % 2 ^ 64)) refl
    ]
  ]

  finish-keeps :
      (errno : ℕ) (r : ConfigReading)
      → errno ≢ enomem
      → entries_read (finish available errno r) ≡ entries_read r
  finish-keeps errno (parsed list) fine = elim (Bool-cases (errno == enomem)) [
    | inl e ↦ absurd (fine ((==_iff errno enomem).0 e))
    | inr e ↦ rw e (shrink-keeps list)
  ]
  finish-keeps errno (refused list) fine = refl
  finish-keeps errno (lost returned list) fine = refl
  finish-keeps errno overrun fine = refl

  read_config_lines-entries :
      (n : ℕ) (list : ConfigEntryList) (lines : List Bytes)
      → length list.entries ≤ n
      → n + length lines < 2 ^ 58
      → HasCapacity list
      → entries_read (read_config_lines available list lines)
        ≡ behind list.entries (entries_of lines)
  unfolding read_config_lines behind
  read_config_lines-entries n list [] at_most few capacity = ap some (sym (append-nil list.entries))
  read_config_lines-entries n list (line ∷ lines) at_most few capacity =
      elim (Bool-cases (is_skipped (strip line))) [
        | inl e ↦
            rw (skips list (strip line) e, e)
              (read_config_lines-entries n list lines at_most (omega arith) capacity)
        | inr e ↦ elim (Option-cases (parse_config_line (strip line))) [
          | inl f ↦ rw (refuses list (strip line) e f, e, f) refl
          | inr (entry, f) ↦
              let add = adds list (strip line) entry (omega arith) capacity e f in
              let (capacity', at_most') = rw add at (
                read_config_line-IsWithin available n list (strip line) at_most (omega arith)
                  capacity) in
              rw (add, e, f)
                (read_config_lines-entries (suc n) _ lines at_most' (omega arith) capacity'
                  ∙ ap (λ (es : List ConfigEntry). behind (es ++ (entry ∷ [])) (entries_of lines))
                      (make_room-entries available list)
                  ∙ behind-add list.entries entry (entries_of lines))
        ]
      ]

-- With memory for every size and no ENOMEM behind the loop, parse_config_file on a new list
-- returns true exactly where the first line of the file is the directive and each other line that
-- is not blank and not a comment can be parsed; the list then has the entries of these lines in
-- their order. The file has fewer than 2 ^ 57 lines behind the first.
pub parse_config_file-entries_of :
    (available : ℕ → Bool) (errno : ℕ) (line : Bytes) (stream : List Bytes) (list : ConfigEntryList)
    → ((size : ℕ) → available size ≡ true)
    → errno ≢ enomem
    → new_config_entry_list available ≡ some list
    → length stream < 2 ^ 57
    → entries_read (parse_config_file available errno (line ∷ stream) list)
      ≡ (if match_special_directive line then entries_of (read_all stream) else none)
unfolding parse_config_file
parse_config_file-entries_of available errno line stream list enough fine new few =
    elim (Bool-cases (match_special_directive line)) [
      | inr other ↦ rw other refl
      | inl matches ↦
          let (capacity, none_yet) = new-capacity available list new in
          let lines = length-read_all stream in
          rw matches (
            finish-keeps available enough errno _ fine
            ∙ read_config_lines-entries available enough 0 list (read_all stream)
                (omega (arith, none_yet)) (omega (arith, lines, few)) capacity
            ∙ behind-nothing list.entries (entries_of (read_all stream)) none_yet)
    ]
