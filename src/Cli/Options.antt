-- ===== src/Cli/Options.antt =====
-- minijail0_cli.c: the options of a configuration file, one call at a time.
pub mod All
use minijail.Base.{
  ℕ, ◌+◌, Bool, true, false, ◌&&◌, ◌||◌, List, [], ◌∷◌, Option, none, some, if◌then◌else◌, ◌==◌,
  length, get_elem?, leb, Bytes, streq, codes,
}
use minijail.Config.{ConfigEntry, ConfigEntryList}

-- The name and the value of a `struct option` of <getopt.h>.
pub record LongOption : Type 0 where
  pub name : Bytes
  pub val : ℕ

-- What a call gives: the option, `optarg` and the new index; -1, with the list freed and the index
-- 0; or the end of the process.
pub data ConfOption : Type 0 where
  next_option : ℕ → Option Bytes → ℕ → ConfOption
  all_consumed unrecognized : ConfOption

abbrev pub optstring : Bytes
optstring = codes "+a:b:c:de::f:g:hik:lm::nprst::u:vwyzB:C:GHIK::LM::NP:R:S:T:UV:Y"

-- isalpha(3) in the C locale.
abbrev pub is_alpha : ℕ → Bool
is_alpha c = (leb b'A' c && leb c b'Z') || (leb b'a' c && leb c b'z')

-- strchr(3) does not give NULL.
unfoldable pub has_byte : ℕ → Bytes → Bool
has_byte c [] = false
has_byte c (x ∷ s) = x == c || has_byte c s

unfoldable pub find_long : List LongOption → Bytes → Option ℕ
find_long [] key = none
find_long (curr_opt ∷ longopts) key =
    let later = find_long longopts key in
    if streq key curr_opt.name then some curr_opt.val else later

unfoldable pub find_short : Bytes → Option ℕ
find_short (c ∷ []) = if is_alpha c && has_byte c optstring then some c else none
find_short key = none

unfoldable pub option_of : List LongOption → Bytes → Option ℕ
option_of longopts key = elim (find_long longopts key) [
  | none ↦ find_short key
  | some val ↦ some val
]

abbrev pub take_option : Option ℕ → Option Bytes → ℕ → ConfOption
take_option none optarg conf_index = unrecognized
take_option (some opt) optarg conf_index = next_option opt optarg (conf_index + 1)

-- The list is not NULL.
unfoldable pub getopt_from_conf : List LongOption → ConfigEntryList → ℕ → ConfOption
getopt_from_conf longopts conf_entry_list conf_index =
    elim (get_elem? conf_entry_list.entries conf_index) [
      | none ↦ all_consumed
      | some entry ↦ take_option (option_of longopts entry.key) entry.value conf_index
    ]
