-- ===== src/Util/Env.antt =====
-- The functions of util.c on an environment: the strings in front of the final NULL. A NULL pointer
-- is none.
pub mod Put
pub mod Dictionary
use minijail.Base.{
  ℕ, suc, ◌+◌, ◌-◌, Bool, true, false, not, ◌&&◌, List, [], ◌∷◌, ◌++◌, Option, none, some,
  if◌then◌else◌, ◌==◌, length, get_elem?, set, take, drop, Bytes, starts_with,
}

abbrev pub Env : Type 0
Env = List Bytes

abbrev pub einval : ℕ
einval = 22

unfoldable pub minijail_copy_env : Option Env → Env
minijail_copy_env none = []
minijail_copy_env (some env) = env

-- The variable of an entry is exactly `name`.
unfoldable pub is_named : Bytes → Bytes → Bool
is_named name entry =
    starts_with name entry
    && elim (get_elem? entry (length name)) [ none ↦ false | some c ↦ c == b'=' ]

-- Whether `name` is found, and `*i`.
unfoldable pub getenv_index : Env → Bytes → Bool × ℕ
getenv_index [] name = (false, 0)
getenv_index (entry ∷ envp) name =
    let (found, i) = getenv_index envp name in
    if is_named name entry then (true, 0) else (found, suc i)

abbrev pub new_entry : Bytes → Bytes → Bytes
new_entry name value = name ++ (b'=' ∷ value)

-- The code that is returned and the new environment, for arguments that are not NULL.
unfoldable pub set_variable : Env → Bytes → Bytes → Bool → ℕ × Env
set_variable env name value overwrite =
    let (found, i) = getenv_index env name in
    if found
    then if not overwrite then (0, env) else (0, set env i (new_entry name value))
    else (0, env ++ (new_entry name value ∷ []))

unfoldable pub minijail_setenv : Option Env → Option Bytes → Option Bytes → Bool → ℕ × Option Env
minijail_setenv (some env) (some (c ∷ name)) (some value) overwrite =
    let (code, env') = set_variable env (c ∷ name) value overwrite in (code, some env')
minijail_setenv env name value overwrite = (einval, env)

-- The value, which stands behind the '='.
unfoldable pub lookup_variable : Env → Bytes → Option Bytes
lookup_variable envp name =
    let (found, i) = getenv_index envp name in
    if not found
    then none
    else elim (get_elem? envp i) [ none ↦ none | some entry ↦ some (drop (length name + 1) entry) ]

unfoldable pub minijail_getenv : Option Env → Option Bytes → Option Bytes
minijail_getenv (some envp) (some name) = lookup_variable envp name
minijail_getenv envp name = none

-- The entry at `i` becomes the last one, and the last one NULL.
unfoldable pub remove_at : Env → ℕ → Env
remove_at envp i = elim (get_elem? envp (length envp - 1)) [
  | none ↦ envp
  | some last ↦ take (length envp - 1) (set envp i last)
]

unfoldable pub minijail_unsetenv : Option Env → Option Bytes → Bool × Option Env
minijail_unsetenv (some envp) (some name) =
    let (found, i) = getenv_index envp name in
    if found then (true, some (remove_at envp i)) else (false, some envp)
minijail_unsetenv envp name = (false, envp)
