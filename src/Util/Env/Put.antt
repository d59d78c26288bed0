-- ===== src/Util/Env/Put.antt =====
-- `minijail_setenv` by recursion on the environment: the first entry of the variable is replaced.
use minijail.Base.{
  ℕ, suc, ◌+◌, Bool, true, false, [], ◌∷◌, some, if◌then◌else◌, length, drop, Bytes, starts_with,
  ◌≡◌, refl, sym, ap, ◌∙◌, arith, Bool-cases, inl, inr, ==_refl,
}
use minijail.Util.Env.{Env, is_named, getenv_index, new_entry, set_variable, lookup_variable}

-- The value of an entry of the variable.
abbrev pub value_of : Bytes → Bytes → Bytes
value_of name entry = drop (length name + 1) entry

-- The first entry of the variable counts.
pub lookup_variable-cons :
    (entry : Bytes) (env : Env) (name : Bytes)
    → lookup_variable (entry ∷ env) name
      ≡ (if is_named name entry then some (value_of name entry) else lookup_variable env name)
unfolding lookup_variable getenv_index
lookup_variable-cons entry env name = elim (Bool-cases (is_named name entry)) [
  | inl e ↦ rw e refl
  | inr e ↦ rw e refl
]

-- The first entry of the variable is replaced, or a new one comes last.
abbrev pub put : Env → Bytes → Bytes → Bool → Env
put [] name value overwrite = new_entry name value ∷ []
put (entry ∷ env) name value overwrite =
    let rest = put env name value overwrite in
    if is_named name entry
    then (if overwrite then new_entry name value else entry) ∷ env
    else entry ∷ rest

-- An entry of another variable is passed over.
set_variable-cons :
    (entry : Bytes) (env : Env) (name value : Bytes) (overwrite : Bool)
    → is_named name entry ≡ false
    → (set_variable (entry ∷ env) name value overwrite).1
      ≡ entry ∷ (set_variable env name value overwrite).1
unfolding set_variable getenv_index
set_variable-cons entry env name value true e = elim (Bool-cases (getenv_index env name).0) [
  | inl f ↦ rw (e, f) refl
  | inr f ↦ rw (e, f) refl
]
set_variable-cons entry env name value false e = elim (Bool-cases (getenv_index env name).0) [
  | inl f ↦ rw (e, f) refl
  | inr f ↦ rw (e, f) refl
]

here :
    (entry : Bytes) (env : Env) (name value : Bytes) (overwrite : Bool)
    → is_named name entry ≡ true
    → (set_variable (entry ∷ env) name value overwrite).1
      ≡ (if overwrite then new_entry name value else entry) ∷ env
unfolding set_variable getenv_index
here entry env name value true e = rw e refl
here entry env name value false e = rw e refl

pub put-here :
    (entry : Bytes) (env : Env) (name value : Bytes) (overwrite : Bool)
    → is_named name entry ≡ true
    → put (entry ∷ env) name value overwrite
      ≡ (if overwrite then new_entry name value else entry) ∷ env
put-here entry env name value overwrite e = rw e refl

pub put-there :
    (entry : Bytes) (env : Env) (name value : Bytes) (overwrite : Bool)
    → is_named name entry ≡ false
    → put (entry ∷ env) name value overwrite ≡ entry ∷ put env name value overwrite
put-there entry env name value overwrite e = rw e refl

set_variable-nil :
    (name value : Bytes) (overwrite : Bool)
    → (set_variable [] name value overwrite).1 ≡ new_entry name value ∷ []
unfolding set_variable getenv_index
set_variable-nil name value overwrite = refl

pub set_variable-put :
    (env : Env) (name value : Bytes) (overwrite : Bool)
    → (set_variable env name value overwrite).1 ≡ put env name value overwrite
set_variable-put [] name value overwrite = set_variable-nil name value overwrite
set_variable-put (entry ∷ env) name value overwrite = elim (Bool-cases (is_named name entry)) [
  | inl e ↦ here entry env name value overwrite e ∙ sym (put-here entry env name value overwrite e)
  | inr e ↦
      set_variable-cons entry env name value overwrite e
      ∙ ap (◌∷◌ entry) (set_variable-put env name value overwrite)
      ∙ sym (put-there entry env name value overwrite e)
]

pub is_named-new_entry : (name value : Bytes) → is_named name (new_entry name value) ≡ true
unfolding is_named starts_with
is_named-new_entry [] value = refl
is_named-new_entry (c ∷ name) value = rw (==_refl c) (is_named-new_entry name value)

suc_one : (n : ℕ) → suc n + 1 ≡ suc (n + 1)
suc_one n = omega arith

pub value_of-new_entry : (name value : Bytes) → value_of name (new_entry name value) ≡ value
value_of-new_entry [] value = refl
value_of-new_entry (c ∷ name) value = rw (suc_one (length name)) (value_of-new_entry name value)
