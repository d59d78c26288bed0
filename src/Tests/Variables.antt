-- ===== src/Tests/Variables.antt =====
-- The theorems on environments at concrete inputs.
use minijail.Base.{ℕ, Bytes, ap, true, [], ◌++◌, Option, none, ◌∷◌, some, codes, ◌≡◌, ◌≢◌, arith}
use minijail.Util.Env.{Env, minijail_setenv, minijail_getenv}
use minijail.Cli.{child_env, set_child_env}
use minijail.Cli.EnvAdd.{set_child_env-getenv}
use minijail.Util.Env.Dictionary.{IsName, stored, minijail_setenv-getenv}

home : IsName (codes "HOME")
home = ground arith

path : IsName (codes "PATH")
path = ground arith

abbrev first : Bytes → ℕ
first [] = 0
first (c ∷ s) = c

home_ne_path : codes "HOME" ≢ codes "PATH"
home_ne_path e = let h : 72 ≡ 80 = ap first e in absurd (omega (arith, h))

minijail_setenv-getenv_example :
    let env = codes "PATH=/bin" ∷ codes "HOME=/" ∷ [] in
    let r = minijail_setenv (some env) (some (codes "HOME")) (some (codes "/root")) true in
    (r.0 ≡ 0)
    × (minijail_getenv r.1 (some (codes "HOME"))
        ≡ stored true (codes "/root") (minijail_getenv (some env) (some (codes "HOME"))))
    × (minijail_getenv r.1 (some (codes "PATH")) ≡ minijail_getenv (some env) (some (codes "PATH")))
minijail_setenv-getenv_example =
    minijail_setenv-getenv (codes "PATH=/bin" ∷ codes "HOME=/" ∷ []) b'H' (codes "OME")
      (codes "PATH") (codes "/root") true home path home_ne_path

set_child_env-getenv_example :
    let environ = some (codes "PATH=/bin" ∷ codes "HOME=/" ∷ []) in
    (after : Option Env) × (set_child_env none (codes "HOME" ++ (b'=' ∷ codes "/root")) environ
      ≡ some after)
    × (minijail_getenv after (some (codes "HOME")) ≡ some (codes "/root"))
    × (minijail_getenv after (some (codes "PATH"))
        ≡ minijail_getenv (some (child_env none environ)) (some (codes "PATH")))
set_child_env-getenv_example =
    set_child_env-getenv none (some (codes "PATH=/bin" ∷ codes "HOME=/" ∷ [])) b'H' (codes "OME")
      (codes "PATH") (codes "/root") home path home_ne_path
