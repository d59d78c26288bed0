-- ===== src/Tests/ConfigOptions.antt =====
-- The theorem on the options of a configuration file at a concrete input, and a run of the code.
use minijail.Base.{◌<◌, List, [], ◌∷◌, some, none, length, codes, streq, ◌≡◌, refl, arith}
use minijail.Config.{ConfigEntry, ConfigEntryList}
use minijail.Cli.Options.{LongOption, has_byte, find_long, find_short, option_of}
use minijail.Cli.Options.All.{ended, killed, calls, options_of, getopt_from_conf-all}

abbrev uts_option : LongOption
uts_option = record { name = codes "uts"; val = 276 }

abbrev long_options : List LongOption
long_options = record { name = codes "mount-dev"; val = b'd' } ∷ uts_option ∷ []

abbrev uts_entry : ConfigEntry
uts_entry = record { key = codes "uts"; value = none }

abbrev remount_entry : ConfigEntry
remount_entry = record { key = codes "K"; value = some (codes "shared") }

abbrev two_entries : ConfigEntryList
two_entries = record { entries = uts_entry ∷ remount_entry ∷ []; num_allocated = 2 }

three_calls : length two_entries.entries < 3
three_calls = ground arith

getopt_from_conf-all_example :
    calls long_options 3 two_entries 0 ≡ options_of long_options two_entries.entries
getopt_from_conf-all_example = getopt_from_conf-all long_options two_entries 3 three_calls

gives_both :
    options_of long_options two_entries.entries
    ≡ ended ((276, none) ∷ (b'K', some (codes "shared")) ∷ [])
unfolding option_of find_long find_short has_byte streq
gives_both = refl

-- A letter that is no option.
stops : options_of long_options (record { key = codes "x"; value = none } ∷ []) ≡ killed
unfolding option_of find_long find_short has_byte streq
stops = refl
