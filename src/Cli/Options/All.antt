-- ===== src/Cli/Options/All.antt =====
-- The calls of `getopt_from_conf` until it gives -1.
use minijail.Base.{
  ℕ, zero, suc, ◌<◌, List, [], ◌∷◌, ◌++◌, append_assoc, Option, none, some, length, length-append,
  get_elem?, Bytes, ◌≡◌, refl, sym, ap, ◌∙◌, arith, Option-cases, inl, inr,
}
use minijail.Config.{ConfigEntry, ConfigEntryList}
use minijail.Cli.Options.{
  LongOption, next_option, all_consumed, unrecognized, option_of, take_option, getopt_from_conf,
}

-- How the calls of a loop come out: -1 in the end, with the options that were given before; the
-- end of the process; or no -1 in the number of calls.
pub data Calls : Type 0 where
  ended : List (ℕ × Option Bytes) → Calls
  killed still_going : Calls

abbrev pub and_before : ℕ → Option Bytes → Calls → Calls
and_before opt optarg (ended options) = ended ((opt, optarg) ∷ options)
and_before opt optarg killed = killed
and_before opt optarg still_going = still_going

at_end : (front : List ConfigEntry) → get_elem? (front ++ []) (length front) ≡ none
at_end [] = refl
at_end (entry ∷ front) = at_end front

at_next :
    (front : List ConfigEntry) (entry : ConfigEntry) (rest : List ConfigEntry)
    → get_elem? (front ++ (entry ∷ rest)) (length front) ≡ some entry
at_next [] entry rest = refl
at_next (first ∷ front) entry rest = at_next front entry rest

module _ (longopts : List LongOption) where
  -- `n` calls at most, from an index.
  abbrev pub calls : ℕ → ConfigEntryList → ℕ → Calls
  calls zero list index = still_going
  calls (suc n) list index = elim (getopt_from_conf longopts list index) [
    | next_option opt optarg index' ↦ and_before opt optarg (calls n list index')
    | all_consumed ↦ ended []
    | unrecognized ↦ killed
  ]

  -- The options of the entries in their order, up to one that is not known.
  abbrev pub options_of : List ConfigEntry → Calls
  options_of [] = ended []
  options_of (entry ∷ entries) = elim (option_of longopts entry.key) [
    | none ↦ killed
    | some opt ↦ and_before opt entry.value (options_of entries)
  ]

  getopt_from_conf-end :
      (list : ConfigEntryList) (index : ℕ)
      → get_elem? list.entries index ≡ none
      → getopt_from_conf longopts list index ≡ all_consumed
  unfolding getopt_from_conf
  getopt_from_conf-end list index e = rw (e, getopt_from_conf) refl

  getopt_from_conf-next :
      (list : ConfigEntryList) (index : ℕ) (entry : ConfigEntry)
      → get_elem? list.entries index ≡ some entry
      → getopt_from_conf longopts list index
        ≡ take_option (option_of longopts entry.key) entry.value index
  unfolding getopt_from_conf
  getopt_from_conf-next list index entry e = rw (e, getopt_from_conf) refl

  calls-options_of :
      (n : ℕ) (list : ConfigEntryList) (front rest : List ConfigEntry)
      → list.entries ≡ front ++ rest
      → length rest < n
      → calls n list (length front) ≡ options_of rest
  calls-options_of zero list front rest e lt = elim lt [ ]
  calls-options_of (suc n) list front [] e lt =
      rw
        (
          getopt_from_conf-end list (length front)
              (ap (λ (es : List ConfigEntry). get_elem? es (length front)) e ∙ at_end front),
          calls,
        )
        refl
  calls-options_of (suc n) list front (entry ∷ rest) e lt =
      let one = getopt_from_conf-next list (length front) entry (
        ap (λ (es : List ConfigEntry). get_elem? es (length front)) e ∙ at_next front entry rest) in
      elim (Option-cases (option_of longopts entry.key)) [
        | inl unknown ↦ rw (one, calls) (rw (unknown, options_of) refl)
        | inr (opt, known) ↦
            rw (one, calls)
              (rw (known, options_of)
                (ap (λ (i : ℕ). and_before opt entry.value (calls n list i))
                    (sym (length-append front (entry ∷ [])))
                  ∙ ap (and_before opt entry.value) (
                      calls-options_of n list (front ++ (entry ∷ [])) rest
                        (e ∙ sym (append_assoc front (entry ∷ []) rest)) (omega (arith, lt)))))
      ]

-- With one call more than the list has entries, the calls of getopt_from_conf from index 0 come to
-- an end: they give the options of all entries in their order and then -1, or the process ends at
-- the first key that is neither the name of a long option nor a letter of optstring.
pub getopt_from_conf-all :
    (longopts : List LongOption) (list : ConfigEntryList) (n : ℕ)
    → length list.entries < n
    → calls longopts n list 0 ≡ options_of longopts list.entries
getopt_from_conf-all longopts list n lt = calls-options_of longopts n list [] list.entries refl lt
