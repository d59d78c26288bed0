-- ===== src/Filter/Line/Meaning.antt =====
-- What a line of a policy says, read from its text, and that its code does that.
use mathlib.Core.Path.{subst}
use minijail.Base.{
  ℕ, ◌%◌, ◌^◌, ◌<◌, Bool, true, false, ◌&&◌, ◌||◌, List, [], ◌∷◌, Option, none, some, ltb, Bytes,
  codes, ◌≡◌, ◌≢◌, refl, sym, ap, ◌∙◌, arith, Bool-cases, Option-cases, inl, inr, some_inj,
}
use minijail.Bpf.{Op}
use minijail.Bpf.Machine.{Data}
use minijail.Filter.Line.{
  Atom, constant_value, is_operator, str_to_op, parse_atom, parse_argidx, split_atom,
}
use minijail.Filter.Line.Compile.{AtomsOf, GroupsOf}
use minijail.Filter.Line.Run.{IsAtom, AreAtoms, AllGroups, atom_holds, group_holds, any_holds}
use minijail.Util.Constant.{parse_constant}
use minijail.Util.Syscall.{ConstantEntry}
use minijail.Util.Text.{tokenize_all}

-- An atom that may have failed to parse.
abbrev said_holds : Data → Option Atom → Bool
said_holds d none = false
said_holds d (some a) = atom_holds d a

abbrev said_in_range : Option Atom → Bool
said_in_range none = true
said_in_range (some a) = ltb a.argidx 6

valid_operator : (op : Op) → is_operator op ≡ true → op ≢ Op.invalid
valid_operator Op.invalid h = cc
valid_operator Op.eq h = λ e. cc
valid_operator Op.ne h = λ e. cc
valid_operator Op.lt h = λ e. cc
valid_operator Op.le h = λ e. cc
valid_operator Op.gt h = λ e. cc
valid_operator Op.ge h = λ e. cc
valid_operator Op.set h = λ e. cc
valid_operator Op.in_mask h = λ e. cc

and_true : (a b : Bool) → (a && b) ≡ true → (a ≡ true) × (b ≡ true)
and_true true true e = (refl, refl)
and_true true false e = cc
and_true false b e = cc

module _ (table : List ConstantEntry) where
  -- An atom, a group and a filter hold for a system call.
  abbrev pub token_holds : Data → Bytes → Bool
  token_holds d t = said_holds d (parse_atom table t)

  abbrev pub tokens_hold : Data → List Bytes → Bool
  tokens_hold d [] = true
  tokens_hold d (t ∷ ts) = token_holds d t && tokens_hold d ts

  abbrev pub groups_hold : Data → List Bytes → Bool
  groups_hold d [] = false
  groups_hold d (g ∷ gs) = tokens_hold d (tokenize_all (some g) (codes "&&")) || groups_hold d gs

  abbrev pub filter_holds : Data → Option Bytes → Bool
  filter_holds d arg_filter = groups_hold d (tokenize_all arg_filter (codes "||"))

  -- Every argument that a filter names is one of the six.
  abbrev pub token_in_range : Bytes → Bool
  token_in_range t = said_in_range (parse_atom table t)

  abbrev pub tokens_in_range : List Bytes → Bool
  tokens_in_range [] = true
  tokens_in_range (t ∷ ts) = token_in_range t && tokens_in_range ts

  abbrev pub groups_in_range : List Bytes → Bool
  groups_in_range [] = true
  groups_in_range (g ∷ gs) =
      tokens_in_range (tokenize_all (some g) (codes "&&")) && groups_in_range gs

  abbrev pub filter_in_range : Option Bytes → Bool
  filter_in_range arg_filter = groups_in_range (tokenize_all arg_filter (codes "||"))

  -- The checks that a parsed atom has passed.
  record Checked (a : Atom) : Type 0 where
    operator : Op
    valid : is_operator operator ≡ true
    argidx : ℕ
    constant : ℕ
    shape : record { op = operator; argidx = argidx % 2 ^ 32; constant = constant % 2 ^ 64 } ≡ a

  parse_atom-Checked : (t : Bytes) {a : Atom} → parse_atom table t ≡ some a → Checked a
  unfolding parse_atom
  parse_atom-Checked t e = elim (Option-cases (split_atom t)) [
    | inl absent ↦ absurd (cc (rw (absent, parse_atom) at e))
    | inr ((argidx_str, operator_str, constant_str), split) ↦
        let e₁ = rw (split, parse_atom) at e in
        elim (Option-cases (parse_argidx argidx_str)) [
          | inl absent ↦ absurd (cc (rw absent at e₁))
          | inr (argidx, number) ↦
              let e₂ = rw number at e₁ in
              elim (Bool-cases (is_operator (str_to_op operator_str))) [
                | inr other ↦ absurd (cc (rw other at e₂))
                | inl valid ↦
                    let e₃ = rw valid at e₂ in
                    elim (Option-cases (constant_value (parse_constant table constant_str))) [
                      | inl absent ↦ absurd (cc (rw absent at e₃))
                      | inr (c, value) ↦ record {
                        operator = str_to_op operator_str;
                        valid = valid;
                        argidx = argidx;
                        constant = c;
                        shape = some_inj (rw value at e₃);
                      }
                    ]
              ]
        ]
  ]

  parse_atom-IsAtom : (t : Bytes) {a : Atom} → parse_atom table t ≡ some a → a.argidx < 6 → IsAtom a
  parse_atom-IsAtom t {a} e lt =
      let checked = parse_atom-Checked t e in
      record {
        valid =
            subst (λ op. op ≢ Op.invalid) (ap (λ x. x.op) checked.shape)
              (valid_operator checked.operator checked.valid);
        exists = lt;
        fits = subst (λ c. c < 2 ^ 64) (ap (λ x. x.constant) checked.shape) (omega arith);
      }

  tokens_hold-group_holds :
      (d : Data) (ts : List Bytes) (atoms : List Atom)
      → AtomsOf table ts atoms
      → tokens_hold d ts ≡ group_holds d atoms
  tokens_hold-group_holds d [] [] h = refl
  tokens_hold-group_holds d (t ∷ ts) (a ∷ atoms) (e, h) =
      ap (λ o. said_holds d o && tokens_hold d ts) e
      ∙ ap (λ b. atom_holds d a && b) (tokens_hold-group_holds d ts atoms h)
  tokens_hold-group_holds d [] (a ∷ atoms) h = elim h [ ]
  tokens_hold-group_holds d (t ∷ ts) [] h = elim h [ ]

  pub groups_hold-any_holds :
      (d : Data) (gs : List Bytes) (groups : List (ℕ × List Atom))
      → GroupsOf table gs groups
      → groups_hold d gs ≡ any_holds d groups
  groups_hold-any_holds d [] [] h = refl
  groups_hold-any_holds d (g ∷ gs) ((id, atoms) ∷ groups) (h, hs) =
      ap (λ b. b || groups_hold d gs)
        (tokens_hold-group_holds d (tokenize_all (some g) (codes "&&")) atoms h)
      ∙ ap (λ b. group_holds d atoms || b) (groups_hold-any_holds d gs groups hs)
  groups_hold-any_holds d [] (a ∷ groups) h = elim h [ ]
  groups_hold-any_holds d (g ∷ gs) [] h = elim h [ ]

  tokens-AreAtoms :
      (ts : List Bytes) (atoms : List Atom)
      → AtomsOf table ts atoms
      → tokens_in_range ts ≡ true
      → AreAtoms atoms
  tokens-AreAtoms [] [] h r = tt
  tokens-AreAtoms (t ∷ ts) (a ∷ atoms) (e, h) r =
      let r' : (ltb a.argidx 6 && tokens_in_range ts) ≡ true =
        ap (λ o. said_in_range o && tokens_in_range ts) (sym e) ∙ r in
      let (first, rest) = and_true (ltb a.argidx 6) (tokens_in_range ts) r' in
      (parse_atom-IsAtom t e (ground arith), tokens-AreAtoms ts atoms h rest)
  tokens-AreAtoms [] (a ∷ atoms) h r = elim h [ ]
  tokens-AreAtoms (t ∷ ts) [] h r = elim h [ ]

  pub groups-AllGroups :
      (gs : List Bytes) (groups : List (ℕ × List Atom))
      → GroupsOf table gs groups
      → groups_in_range gs ≡ true
      → AllGroups groups
  groups-AllGroups [] [] h r = tt
  groups-AllGroups (g ∷ gs) ((id, atoms) ∷ groups) (h, hs) r =
      let (first, rest) =
        and_true (tokens_in_range (tokenize_all (some g) (codes "&&"))) (groups_in_range gs) r in
      (
        tokens-AreAtoms (tokenize_all (some g) (codes "&&")) atoms h first,
        groups-AllGroups gs groups hs rest,
      )
  groups-AllGroups [] (a ∷ groups) h r = elim h [ ]
  groups-AllGroups (g ∷ gs) [] h r = elim h [ ]
