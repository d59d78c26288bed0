-- ===== src/Config/Entry.antt =====
-- What an entry of a configuration line is.
use minijail.Base.{
  ℕ, [], ◌∷◌, none, some, Bytes, codes, ◌≡◌, ◌≢◌, refl, sym, ◌∙◌, Option-cases, inl, inr, some_inj,
}
use mathlib.Core.Path.{subst}
use minijail.Util.Text.{strip, strstr}
use minijail.Util.Text.Tokens.{tokenize-none, tokenize-some, strstr-Searched, Cut, Lacks}
use minijail.Util.Text.Strip.{Stripped, strip-Stripped}
use minijail.Config.{ConfigEntry, make_entry, parse_config_line}

-- A line that has no '=' is the key; else the key stands in front of the first '=' and the value
-- behind it. Neither has blanks at its ends, and neither is empty.
pub data IsEntryOf : Bytes → ConfigEntry → Type 0 where
  flag :
      {line key : Bytes}
      → Lacks (codes "=") line
      → Stripped line key
      → key ≢ []
      → IsEntryOf line (record { key = key; value = none })
  pair :
      {line before behind key value : Bytes}
      → Cut (codes "=") line before behind
      → Stripped before key
      → key ≢ []
      → Stripped behind value
      → value ≢ []
      → IsEntryOf line (record { key = key; value = some value })

cons_ne_nil : (c : ℕ) (s : Bytes) → c ∷ s ≢ []
cons_ne_nil c s e = cc

make-flag :
    (line key : Bytes) (entry : ConfigEntry)
    → Lacks (codes "=") line
    → Stripped line key
    → make_entry (some key) none ≡ some entry
    → IsEntryOf line entry
make-flag line [] entry lacks stripped e = absurd (cc e)
make-flag line (c ∷ key) entry lacks stripped e =
    subst (IsEntryOf line) (some_inj e) (flag lacks stripped (cons_ne_nil c key))

make-pair :
    (line before behind key value : Bytes) (entry : ConfigEntry)
    → Cut (codes "=") line before behind
    → Stripped before key
    → Stripped behind value
    → make_entry (some key) (some value) ≡ some entry
    → IsEntryOf line entry
make-pair line before behind [] value entry cut k v e = absurd (cc e)
make-pair line before behind (c ∷ key) [] entry cut k v e = absurd (cc e)
make-pair line before behind (c ∷ key) (d ∷ value) entry cut k v e =
    subst (IsEntryOf line) (some_inj e) (pair cut k (cons_ne_nil c key) v (cons_ne_nil d value))

parse-flag :
    (line : Bytes)
    → strstr (codes "=") line ≡ none
    → parse_config_line line ≡ make_entry (some (strip line)) none
unfolding parse_config_line
parse-flag line e = rw (tokenize-none b'=' [] line e) refl

parse-pair :
    (line before behind : Bytes)
    → strstr (codes "=") line ≡ some (before, behind)
    → parse_config_line line ≡ make_entry (some (strip before)) (some (strip behind))
unfolding parse_config_line
parse-pair line before behind e = rw (tokenize-some b'=' [] line before behind e) refl

-- The entry that parse_config_line makes of a line has the line itself as its key and no value,
-- where the line has no '='; else what stands in front of the first '=' and what stands behind it.
-- Both are without the blanks at their ends, and not empty.
pub parse_config_line-IsEntryOf :
    (line : Bytes) (entry : ConfigEntry)
    → parse_config_line line ≡ some entry
    → IsEntryOf line entry
parse_config_line-IsEntryOf line entry e = elim (Option-cases (strstr (codes "=") line)) [
  | inl nowhere ↦
      make-flag line (strip line) entry (rw nowhere at (strstr-Searched (codes "=") line))
        (strip-Stripped line) (sym (parse-flag line nowhere) ∙ e)
  | inr ((before, behind), found) ↦
      make-pair line before behind (strip before) (strip behind) entry
        (rw found at (strstr-Searched (codes "=") line)) (strip-Stripped before)
        (strip-Stripped behind) (sym (parse-pair line before behind found) ∙ e)
]
