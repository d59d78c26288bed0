-- ===== src/Cli.antt =====
-- minijail0_cli.c: the environment that --env-add builds for the child.
pub mod EnvAdd
pub mod Options
use minijail.Base.{Bool, true, [], ◌∷◌, Option, none, some, if◌then◌else◌, ◌==◌, Bytes, codes}
use minijail.Util.Text.{strstr}
use minijail.Util.Env.{Env, minijail_copy_env, minijail_setenv}

-- The environment of the child before the option: a copy of the current one, the first time.
unfoldable pub child_env : Option Env → Option Env → Env
child_env none environ = minijail_copy_env environ
child_env (some env) environ = env

-- The new `*envp`, none where the process ends; strchr(3) looks for '=' as strstr(3) does for "=".
unfoldable pub set_child_env : Option Env → Bytes → Option Env → Option (Option Env)
set_child_env envp arg environ = elim (strstr (codes "=") arg) [
  | none ↦ none
  | some (name, env_value) ↦
      let r = minijail_setenv (some (child_env envp environ)) (some name) (some env_value) true in
      if r.0 == 0 then some r.1 else none
]
