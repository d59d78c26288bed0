-- ===== src/Cli/EnvAdd.antt =====
-- What the child finds in its environment.
use minijail.Base.{
  ℕ, true, false, [], ◌∷◌, ◌++◌, Option, some, Bytes, codes, starts_with, ◌≡◌, ◌≢◌, refl, arith,
  ==_iff,
}
use minijail.Util.Text.{strstr}
use minijail.Util.Env.{Env, minijail_setenv, minijail_getenv}
use minijail.Util.Env.Dictionary.{IsName, minijail_setenv-getenv}
use minijail.Cli.{child_env, set_child_env}

not_here : (c : ℕ) (s : Bytes) → c ≢ b'=' → starts_with (codes "=") (c ∷ s) ≡ false
unfolding starts_with
not_here c s differ = ground (arith, differ)

strstr-name :
    (name value : Bytes)
    → IsName name
    → strstr (codes "=") (name ++ (b'=' ∷ value)) ≡ some (name, value)
unfolding strstr starts_with
strstr-name [] value h = refl
strstr-name (c ∷ name) value (differ, h) =
    rw (not_here c (name ++ (b'=' ∷ value)) differ, strstr-name name value h) refl

set_child_env-sets :
    (envp environ : Option Env) (arg name value : Bytes)
    → strstr (codes "=") arg ≡ some (name, value)
    → (minijail_setenv (some (child_env envp environ)) (some name) (some value) true).0 ≡ 0
    → set_child_env envp arg environ
      ≡ some (minijail_setenv (some (child_env envp environ)) (some name) (some value) true).1
unfolding set_child_env
set_child_env-sets envp environ arg name value e code =
    rw (e, set_child_env) (rw ((==_iff _ 0).1 code) refl)

-- For an argument VAR=value whose VAR is not empty, set_child_env does not end the process, and in
-- the environment that it leaves minijail_getenv finds the value under VAR; under another name it
-- finds what it found in the environment of the child before, or in a copy of the current one if
-- the child had none yet. No byte of a name is '='.
pub set_child_env-getenv :
    (envp environ : Option Env) (c : ℕ) (name other value : Bytes)
    → IsName (c ∷ name)
    → IsName other
    → c ∷ name ≢ other
    → (after : Option Env) × (set_child_env envp ((c ∷ name) ++ (b'=' ∷ value)) environ
        ≡ some after)
      × (minijail_getenv after (some (c ∷ name)) ≡ some value)
      × (minijail_getenv after (some other)
          ≡ minijail_getenv (some (child_env envp environ)) (some other))
set_child_env-getenv envp environ c name other value n o differ =
    let (code, same, others) =
      minijail_setenv-getenv (child_env envp environ) c name other value true n o differ in
    (_, set_child_env-sets envp environ _ _ _ (strstr-name (c ∷ name) value n) code, same, others)
