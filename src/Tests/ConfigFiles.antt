-- ===== src/Tests/ConfigFiles.antt =====
-- The theorems on configuration files at concrete inputs, and runs of the code.
use minijail.Base.{
  ℕ, ◌^◌, Bool, true, List, [], ◌∷◌, ◌++◌, none, some, if◌then◌else◌, Bytes, codes, streq,
  starts_with, ◌<◌, length, ◌≡◌, ◌≢◌, refl, arith,
}
use minijail.Util.Text.{strip, strip_front, strip_back, strstr, tokenize}
use minijail.Util.Lines.{read_all, read_lines, getmultiline, eat_newline, drop_last}
use minijail.Jail.Errno.{enomem}
use minijail.Config.{
  ConfigEntry, ConfigEntryList, parsed, overrun, list_default_size, new_config_entry_list,
  make_room, has_room, push_entry, read_config_line, read_config_lines, shrink, parse_config_file,
  parse_config_line, is_skipped, match_special_directive,
}
use minijail.Config.Entry.{IsEntryOf, parse_config_line-IsEntryOf}
use minijail.Config.Capacity.{parse_config_file-safe}
use minijail.Config.Reference.{entries_of, entries_read, parse_config_file-entries_of}

abbrev mount_xyz : ConfigEntry
mount_xyz = record { key = codes "mount"; value = some (codes "xyz") }

parses_mount : parse_config_line (codes "mount= xyz") ≡ some mount_xyz
unfolding parse_config_line strip strip_front strip_back strstr tokenize starts_with
parses_mount = refl

parse_config_line-IsEntryOf_example : IsEntryOf (codes "mount= xyz") mount_xyz
parse_config_line-IsEntryOf_example =
    parse_config_line-IsEntryOf (codes "mount= xyz") mount_xyz parses_mount

abbrev plenty : ℕ → Bool
plenty size = true

abbrev new_list : ConfigEntryList
new_list = record { entries = []; num_allocated = list_default_size }

new_list_is : new_config_entry_list plenty ≡ some new_list
unfolding new_config_entry_list
new_list_is = refl

abbrev ended : Bytes → Bytes
ended s = s ++ (b'\n' ∷ [])

abbrev directive : Bytes
directive = ended (codes "% minijail-config-file v0")

-- With a comment, a blank line and a line that goes on.
abbrev file_lines : List Bytes
file_lines =
    ended (codes "# Comments ")
    ∷ ended []
    ∷ ended (codes "uts")
    ∷ (codes "mount= " ++ (b'\\' ∷ b'\n' ∷ []))
    ∷ codes "xyz"
    ∷ []

few_lines : length file_lines < 2 ^ 57
few_lines = ground arith

few_in_all : length (directive ∷ file_lines) < 2 ^ 57
few_in_all = ground arith

parse_config_file-safe_example :
    parse_config_file plenty 0 (directive ∷ file_lines) new_list ≢ overrun
parse_config_file-safe_example =
    parse_config_file-safe plenty 0 (directive ∷ file_lines) new_list new_list_is few_in_all

no_error : 0 ≢ enomem
no_error e = absurd (ground (arith, e))

parse_config_file-entries_of_example :
    entries_read (parse_config_file plenty 0 (directive ∷ file_lines) new_list)
    ≡ (if match_special_directive directive then entries_of (read_all file_lines) else none)
parse_config_file-entries_of_example =
    parse_config_file-entries_of plenty 0 directive file_lines new_list (λ size. refl) no_error
      new_list_is few_lines

abbrev uts : ConfigEntry
uts = record { key = codes "uts"; value = none }

reads_two : entries_of (read_all file_lines) ≡ some (uts ∷ mount_xyz ∷ [])
unfolding parse_config_line strip strip_front strip_back strstr tokenize starts_with is_skipped
    read_all read_lines getmultiline eat_newline drop_last
reads_two = refl

-- A list that a file without entries has left has no room, and twice that is none either.
abbrev shrunk : ConfigEntryList
shrunk = record { entries = []; num_allocated = 0 }

shrinks : parse_config_file plenty 0 (directive ∷ []) new_list ≡ parsed shrunk
unfolding parse_config_file match_special_directive streq read_config_lines read_all read_lines
    getmultiline shrink
shrinks = refl

overruns : parse_config_file plenty 0 (directive ∷ codes "uts" ∷ []) shrunk ≡ overrun
unfolding parse_config_file match_special_directive streq read_config_lines read_all read_lines
    getmultiline eat_newline drop_last read_config_line make_room push_entry has_room is_skipped
    parse_config_line strip strip_front strip_back strstr tokenize starts_with
overruns = refl
