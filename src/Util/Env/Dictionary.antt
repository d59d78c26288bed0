-- ===== src/Util/Env/Dictionary.antt =====
-- An environment is a dictionary: what `minijail_getenv` finds after `minijail_setenv`.
use minijail.Base.{
  ℕ, Bool, true, false, [], ◌∷◌, Option, none, some, if◌then◌else◌, Bytes, starts_with, ◌≡◌, ◌≢◌,
  refl, sym, ap, ◌∙◌, arith, Bool-cases, inl, inr,
}
use minijail.Util.Env.{
  Env, is_named, getenv_index, new_entry, set_variable, minijail_setenv, lookup_variable,
  minijail_getenv,
}
use minijail.Util.Env.Put.{
  value_of, put, lookup_variable-cons, set_variable-put, put-here, put-there, is_named-new_entry,
  value_of-new_entry,
}

true_ne_false : true ≢ false
true_ne_false e = cc

-- No byte of a name is '='.
abbrev pub IsName : Bytes → Type 0
IsName [] = Unit
IsName (c ∷ s) = (c ≢ b'=') × IsName s

is_named-cons :
    (c x : ℕ) (name entry : Bytes)
    → is_named (c ∷ name) (x ∷ entry) ≡ true
    → (c ≡ x) × (is_named name entry ≡ true)
unfolding is_named starts_with
is_named-cons c x name entry e = ground (arith, e)

is_named-nil : (x : ℕ) (entry : Bytes) → is_named [] (x ∷ entry) ≡ true → x ≡ b'='
unfolding is_named starts_with
is_named-nil x entry e = ground (arith, e)

nothing_named : (name : Bytes) → is_named name [] ≡ false
unfolding is_named starts_with
nothing_named [] = refl
nothing_named (c ∷ name) = refl

-- An entry is one of a single variable.
is_named_unique :
    (name other entry : Bytes)
    → IsName name
    → IsName other
    → is_named name entry ≡ true
    → is_named other entry ≡ true
    → name ≡ other
is_named_unique [] [] entry n o e f = refl
is_named_unique name other [] n o e f = absurd (true_ne_false (sym e ∙ nothing_named name))
is_named_unique [] (d ∷ other) (x ∷ entry) n (d_ne, o) e f =
    absurd (d_ne ((is_named-cons d x other entry f).0 ∙ is_named-nil x entry e))
is_named_unique (c ∷ name) [] (x ∷ entry) (c_ne, n) o e f =
    absurd (c_ne ((is_named-cons c x name entry e).0 ∙ is_named-nil x entry f))
is_named_unique (c ∷ name) (d ∷ other) (x ∷ entry) (_, n) (_, o) e f =
    let (cx, e') = is_named-cons c x name entry e in
    let (dx, f') = is_named-cons d x other entry f in
    rw (cx, dx) (ap (◌∷◌ x) (is_named_unique name other entry n o e' f'))

abbrev pub or_value : Bytes → Option Bytes → Bytes
or_value value none = value
or_value value (some there) = there

-- What a write leaves at its variable: a value that is there stays unless it is to be overwritten.
abbrev pub stored : Bool → Bytes → Option Bytes → Option Bytes
stored true value old = some value
stored false value old = some (or_value value old)

lookup-nil : (name : Bytes) → lookup_variable [] name ≡ none
unfolding lookup_variable getenv_index
lookup-nil name = refl

lookup-hit :
    (entry : Bytes) (env : Env) (name : Bytes)
    → is_named name entry ≡ true
    → lookup_variable (entry ∷ env) name ≡ some (value_of name entry)
lookup-hit entry env name e = lookup_variable-cons entry env name ∙ rw e refl

lookup-miss :
    (entry : Bytes) (env : Env) (name : Bytes)
    → is_named name entry ≡ false
    → lookup_variable (entry ∷ env) name ≡ lookup_variable env name
lookup-miss entry env name e = lookup_variable-cons entry env name ∙ rw e refl

lookup-new_entry :
    (env : Env) (name value : Bytes)
    → lookup_variable (new_entry name value ∷ env) name ≡ some value
lookup-new_entry env name value =
    lookup-hit (new_entry name value) env name (is_named-new_entry name value)
    ∙ ap (λ (v : Bytes). some v) (value_of-new_entry name value)

lookup-put_here :
    (entry : Bytes) (env : Env) (name value : Bytes) (overwrite : Bool)
    → is_named name entry ≡ true
    → lookup_variable ((if overwrite then new_entry name value else entry) ∷ env) name
      ≡ stored overwrite value (lookup_variable (entry ∷ env) name)
lookup-put_here entry env name value true e = lookup-new_entry env name value
lookup-put_here entry env name value false e =
    let there = lookup-hit entry env name e in
    there ∙ ap (λ (old : Option Bytes). stored false value old) (sym there)

put-lookup_same :
    (env : Env) (name value : Bytes) (overwrite : Bool)
    → lookup_variable (put env name value overwrite) name
      ≡ stored overwrite value (lookup_variable env name)
put-lookup_same [] name value true = lookup-new_entry [] name value
put-lookup_same [] name value false =
    lookup-new_entry [] name value
    ∙ ap (λ (old : Option Bytes). stored false value old) (sym (lookup-nil name))
put-lookup_same (entry ∷ env) name value overwrite = elim (Bool-cases (is_named name entry)) [
  | inl e ↦
      ap (λ (t : Env). lookup_variable t name) (put-here entry env name value overwrite e)
      ∙ lookup-put_here entry env name value overwrite e
  | inr e ↦
      ap (λ (t : Env). lookup_variable t name) (put-there entry env name value overwrite e)
      ∙ lookup-miss entry _ name e
      ∙ put-lookup_same env name value overwrite
      ∙ ap (λ (old : Option Bytes). stored overwrite value old) (sym (lookup-miss entry env name e))
]

-- An entry of one variable is none of another.
is_named_other :
    (name other entry : Bytes)
    → IsName name
    → IsName other
    → name ≢ other
    → is_named name entry ≡ true
    → is_named other entry ≡ false
is_named_other name other entry n o differ e = elim (Bool-cases (is_named other entry)) [
  | inl f ↦ absurd (differ (is_named_unique name other entry n o e f))
  | inr f ↦ f
]

module _ (name other value : Bytes) (n : IsName name) (o : IsName other)
    (differ : name ≢ other) where
  lookup-put_other :
      (entry : Bytes) (env : Env) (overwrite : Bool)
      → is_named name entry ≡ true
      → lookup_variable ((if overwrite then new_entry name value else entry) ∷ env) other
        ≡ lookup_variable (entry ∷ env) other
  lookup-put_other entry env true e =
      lookup-miss (new_entry name value) env other
        (is_named_other name other _ n o differ (is_named-new_entry name value))
      ∙ sym (lookup-miss entry env other (is_named_other name other entry n o differ e))
  lookup-put_other entry env false e = refl

  lookup-cons_other :
      (entry : Bytes) (env env' : Env)
      → lookup_variable env other ≡ lookup_variable env' other
      → lookup_variable (entry ∷ env) other ≡ lookup_variable (entry ∷ env') other
  lookup-cons_other entry env env' e = elim (Bool-cases (is_named other entry)) [
    | inl f ↦ lookup-hit entry env other f ∙ sym (lookup-hit entry env' other f)
    | inr f ↦ lookup-miss entry env other f ∙ e ∙ sym (lookup-miss entry env' other f)
  ]

  put-lookup_other :
      (env : Env) (overwrite : Bool)
      → lookup_variable (put env name value overwrite) other ≡ lookup_variable env other
  put-lookup_other [] overwrite =
      lookup-miss (new_entry name value) [] other
        (is_named_other name other _ n o differ (is_named-new_entry name value))
  put-lookup_other (entry ∷ env) overwrite = elim (Bool-cases (is_named name entry)) [
    | inl e ↦
        ap (λ (t : Env). lookup_variable t other) (put-here entry env name value overwrite e)
        ∙ lookup-put_other entry env overwrite e
    | inr e ↦
        ap (λ (t : Env). lookup_variable t other) (put-there entry env name value overwrite e)
        ∙ lookup-cons_other entry _ env (put-lookup_other env overwrite)
  ]

set_variable-code :
    (env : Env) (name value : Bytes) (overwrite : Bool)
    → (set_variable env name value overwrite).0 ≡ 0
unfolding set_variable
set_variable-code env name value true = elim (Bool-cases (getenv_index env name).0) [
  | inl f ↦ rw f refl
  | inr f ↦ rw f refl
]
set_variable-code env name value false = elim (Bool-cases (getenv_index env name).0) [
  | inl f ↦ rw f refl
  | inr f ↦ rw f refl
]

-- An environment is a dictionary: minijail_setenv of a name that is not empty gives 0, and
-- minijail_getenv then finds the new value under the name, or the old one if there is one and it is
-- not to be overwritten; under another name it finds
-- what it found before. No byte of a name is '='.
pub minijail_setenv-getenv :
    (env : Env) (c : ℕ) (name other value : Bytes) (overwrite : Bool)
    → IsName (c ∷ name)
    → IsName other
    → c ∷ name ≢ other
    → let r = minijail_setenv (some env) (some (c ∷ name)) (some value) overwrite in
      (r.0 ≡ 0)
      × (minijail_getenv r.1 (some (c ∷ name))
          ≡ stored overwrite value (minijail_getenv (some env) (some (c ∷ name))))
      × (minijail_getenv r.1 (some other) ≡ minijail_getenv (some env) (some other))
unfolding minijail_setenv minijail_getenv
minijail_setenv-getenv env c name other value overwrite n o differ =
    let after = set_variable-put env (c ∷ name) value overwrite in
    (
      set_variable-code env (c ∷ name) value overwrite,
      ap (λ (t : Env). lookup_variable t (c ∷ name)) after
          ∙ put-lookup_same env (c ∷ name) value overwrite,
      ap (λ (t : Env). lookup_variable t other) after
          ∙ put-lookup_other (c ∷ name) other value n o differ env overwrite,
    )
