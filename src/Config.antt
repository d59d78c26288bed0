-- ===== src/Config.antt =====
-- The configuration files of config_parser.c: lines with a key and, behind '=', a value.
pub mod Entry
pub mod Capacity
pub mod Reference
use minijail.Base.{
  ℕ, ◌*◌, ◌/◌, ◌%◌, ◌^◌, Bool, true, false, not, ◌&&◌, ◌||◌, List, [], ◌∷◌, ◌++◌, Option, none,
  some, if◌then◌else◌, ◌==◌, length, ltb, Bytes, streq, codes,
}
use minijail.Util.Text.{strip, tokenize}
use minijail.Util.Lines.{read_all}
use minijail.Jail.Errno.{enomem}
use mathlib.Core.Option

pub record ConfigEntry : Type 0 where
  pub key : Bytes
  pub value : Option Bytes

-- The entries stand for `num_entries` too, which is their number.
pub record ConfigEntryList : Type 0 where
  pub entries : List ConfigEntry
  pub num_allocated : ℕ

-- How a file is left: `true` or `false` is returned with the list; `lost` is a list with a NULL in
-- place of its entries, after a realloc(3) that failed, and `overrun` an entry that is written
-- behind the end of the array.
pub data ConfigReading : Type 0 where
  parsed : ConfigEntryList → ConfigReading
  refused : ConfigEntryList → ConfigReading
  lost : Bool → ConfigEntryList → ConfigReading
  overrun : ConfigReading

abbrev pub list_default_size : ℕ
list_default_size = 100

-- The size of a `struct config_entry`, two pointers.
abbrev pub entry_size : ℕ
entry_size = 16

abbrev pub size_of_list : ℕ
size_of_list = 24

-- What the code makes of the parts in front of '=' and behind it.
abbrev pub make_entry : Option Bytes → Option Bytes → Option ConfigEntry
make_entry (some (c ∷ key)) none = some (record { key = c ∷ key; value = none })
make_entry (some (c ∷ key)) (some (d ∷ value)) =
    some (record { key = c ∷ key; value = some (d ∷ value) })
make_entry key value = none

unfoldable pub parse_config_line : Bytes → Option ConfigEntry
parse_config_line config_line =
    let (key, value) = tokenize (some config_line) (codes "=") in
    make_entry (Option.map strip key) (Option.map strip value)

unfoldable pub match_special_directive : Bytes → Bool
match_special_directive line = streq line (codes "% minijail-config-file v0" ++ (b'\n' ∷ []))

-- A blank line or a comment.
unfoldable pub is_skipped : Bytes → Bool
is_skipped [] = true
is_skipped (c ∷ line) = c == b'#'

-- The loop goes on after `parsed`, and the function returns after the others.
abbrev pub and_then : ConfigReading → (ConfigEntryList → ConfigReading) → ConfigReading
and_then (parsed list) rest = rest list
and_then (refused list) rest = refused list
and_then (lost returned list) rest = lost returned list
and_then overrun rest = overrun

-- `available` says for how many bytes there is memory.
module _ (available : ℕ → Bool) where
  unfoldable pub new_config_entry_list : Option ConfigEntryList
  new_config_entry_list =
      if available (list_default_size * entry_size) && available size_of_list
      then some (record { entries = []; num_allocated = list_default_size })
      else none

  -- Twice the room where the list is full, and whether realloc(3) gives it.
  unfoldable pub make_room : ConfigEntryList → Bool × ConfigEntryList
  make_room list =
      if ltb (length list.entries) list.num_allocated
      then (true, list)
      else let num_allocated = list.num_allocated * 2 % 2 ^ 64 in
        (
          available (num_allocated * entry_size % 2 ^ 64),
          record { entries = list.entries; num_allocated = num_allocated },
        )

  -- Whether the array, of `num_allocated * sizeof(struct config_entry)` bytes, has room for one more
  -- entry.
  unfoldable pub has_room : ConfigEntryList → Bool
  has_room list = ltb (length list.entries) (list.num_allocated * entry_size % 2 ^ 64 / entry_size)

  unfoldable pub push_entry : ConfigEntryList → ConfigEntry → ConfigReading
  push_entry list entry =
      if has_room list
      then parsed
          (record { entries = list.entries ++ (entry ∷ []); num_allocated = list.num_allocated })
      else overrun

  -- One round of the loop, for a line that is stripped.
  unfoldable pub read_config_line : ConfigEntryList → Bytes → ConfigReading
  read_config_line list line =
      if is_skipped line
      then parsed list
      else let (given, list') = make_room list in
        if given
        then elim (parse_config_line line) [ none ↦ refused list' | some e ↦ push_entry list' e ]
        else lost false list'

  unfoldable pub read_config_lines : ConfigEntryList → List Bytes → ConfigReading
  read_config_lines list [] = parsed list
  read_config_lines list (line ∷ lines) =
      and_then (read_config_line list (strip line)) (λ list'. read_config_lines list' lines)

  -- realloc(3) to a smaller size, with an answer that is not looked at: NULL for no bytes.
  unfoldable pub shrink : ConfigEntryList → ConfigReading
  shrink list =
      let size = length list.entries in
      let list' : ConfigEntryList = record { entries = list.entries; num_allocated = size } in
      if ltb size list.num_allocated
      then (if size == 0 || available (size * entry_size % 2 ^ 64)
          then parsed list'
          else lost true list')
      else parsed list

  -- `errno` is its value behind the loop.
  abbrev pub finish : ℕ → ConfigReading → ConfigReading
  finish errno (parsed list) = if errno == enomem then refused list else shrink list
  finish errno (refused list) = refused list
  finish errno (lost returned list) = lost returned list
  finish errno overrun = overrun

  -- `config_file` is not NULL, and its lines are those of the stream.
  unfoldable pub parse_config_file : ℕ → List Bytes → ConfigEntryList → ConfigReading
  parse_config_file errno [] list = refused list
  parse_config_file errno (line ∷ stream) list =
      if match_special_directive line
      then finish errno (read_config_lines list (read_all stream))
      else refused list
