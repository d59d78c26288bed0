-- ===== src/Jail/Limits.antt =====
-- The calls of libminijail.c that add to a bounded array or a list of hooks.
use minijail.Base.{
  ℕ, Bool, true, false, ◌||◌, List, [], ◌∷◌, ◌++◌, if◌then◌else◌, ◌==◌, leb, length, Bytes,
}
use minijail.Jail.State.{Jail, Rlimit, max_cgroups, max_rlimits, max_preserved_fds}
use minijail.Jail.Answer.{Answer, returned, refused}
use minijail.Jail.Errno

unfoldable pub minijail_add_to_cgroup : Bytes → Jail → Answer
minijail_add_to_cgroup path j =
    if leb max_cgroups (length j.cgroups)
    then refused Errno.enomem j
    else returned 0
        (record j { cgroups = j.cgroups ++ (path ∷ []); flags = record j.flags { cgroups = true } })

-- The loop over the limits that are set.
unfoldable pub has_rlimit : ℕ → List Rlimit → Bool
has_rlimit kind [] = false
has_rlimit kind (r ∷ rlimits) = r.kind == kind || has_rlimit kind rlimits

unfoldable pub minijail_rlimit : ℕ → ℕ → ℕ → Jail → Answer
unfolding has_rlimit
minijail_rlimit kind cur max j =
    if leb max_rlimits (length j.rlimits)
    then refused Errno.enomem j
    else if has_rlimit kind j.rlimits
    then refused Errno.eexist j
    else returned 0
        (record j { rlimits = j.rlimits ++ (record { kind = kind; cur = cur; max = max } ∷ []) })

-- MINIJAIL_HOOK_EVENT_MAX
abbrev pub hook_event_max : ℕ
hook_event_max = 3

unfoldable pub minijail_add_hook : ℕ → ℕ → ℕ → Jail → Answer
minijail_add_hook hook payload event j =
    if leb hook_event_max event
    then refused Errno.einval j
    else returned 0 (record j {
      hooks = j.hooks ++ (record { hook = hook; payload = payload; event = event } ∷ []);
    })

-- A descriptor is an int: the bits of a negative one stand at 2^31 and above.
unfoldable pub is_negative : ℕ → Bool
is_negative fd = leb 2147483648 fd

unfoldable pub minijail_preserve_fd : ℕ → ℕ → Jail → Answer
unfolding is_negative
minijail_preserve_fd parent_fd child_fd j =
    if is_negative parent_fd || is_negative child_fd
    then refused Errno.einval j
    else if leb max_preserved_fds (length j.preserved_fds)
    then refused Errno.enomem j
    else returned 0 (record j {
      preserved_fds =
          j.preserved_fds ++ (record { parent_fd = parent_fd; child_fd = child_fd } ∷ []);
    })
