-- ===== src/Jail/FsRules/Profile.antt =====
-- The rules that `minijail_add_minimalistic_mountns_fs_rules` adds, as one list.
use minijail.Base.{
  ℕ, ◌+◌, bit_or, Bool, true, false, not, ◌||◌, ◌&&◌, List, [], ◌∷◌, ◌++◌, Option, none, some,
  if◌then◌else◌, ◌==◌, Bytes, codes, ◌≡◌, refl, sym, ap, ◌∙◌, append_assoc, append-nil,
  Option-cases, inl, inr,
}
use minijail.Jail.State.{Jail, Flags, FsRule, Mountpoint}
use minijail.Jail.Answer.{Host}
use minijail.Jail.Landlock
use minijail.Jail.FsRules.{
  known_abi, at_least, fs_refer_restriction_supported, setup_fs_rules_fd, add_fs_restriction_path,
  minijail_add_fs_restriction_rx, minijail_add_fs_restriction_ro, minijail_add_fs_restriction_rw,
  minijail_add_fs_restriction_advanced_rw, minijail_add_fs_restriction_edit,
  mount_has_readonly_flag, mount_events_allowed, add_rx_paths, default_paths,
  minijail_enable_default_fs_restrictions, add_mount_rules, add_profile_rules,
  minijail_add_minimalistic_mountns_fs_rules,
}

abbrev rule : ℕ → Bytes → FsRule
rule rights path = record { path = path; landlock_flags = rights }

-- The rights to write everything, and to move files where the kernel can restrict that.
abbrev pub advanced_rights : Bool → ℕ
advanced_rights refer =
    if refer
    then bit_or (bit_or Landlock.roughly_read Landlock.roughly_full_write) Landlock.refer
    else bit_or Landlock.roughly_read Landlock.roughly_full_write

-- A mount can be read and run, and written unless it is mounted read-only without mount events.
abbrev pub mount_rules : Bool → Mountpoint → List FsRule
mount_rules refer m =
    rule Landlock.roughly_read_execute m.dest
    ∷ (if not (mount_has_readonly_flag m) || mount_events_allowed m
        then rule (advanced_rights refer) m.dest ∷ []
        else [])

abbrev pub all_mount_rules : Bool → List Mountpoint → List FsRule
all_mount_rules refer [] = []
all_mount_rules refer (m ∷ mounts) = mount_rules refer m ++ all_mount_rules refer mounts

abbrev pub rx_rules : List Bytes → List FsRule
rx_rules [] = []
rx_rules (path ∷ paths) = rule Landlock.roughly_read_execute path ∷ rx_rules paths

-- What a jail with mounts gets beside them.
abbrev pub system_rules : Bool → List FsRule
system_rules vfs =
    rx_rules default_paths
    ++ (rule (bit_or Landlock.roughly_read Landlock.roughly_edit) (codes "/dev")
        ∷ (rule Landlock.roughly_read (codes "/proc")
            ∷ (if vfs
                then rule (bit_or Landlock.roughly_read Landlock.roughly_basic_write) (codes "/tmp")
                  ∷ []
                else [])))

abbrev pub profile_rules : Bool → Bool → List Mountpoint → List FsRule
profile_rules refer vfs [] = []
profile_rules refer vfs (m ∷ mounts) = all_mount_rules refer (m ∷ mounts) ++ system_rules vfs

-- From one jail to the other the rules are added, and nothing else that matters here.
record Adds (host : Host) (rules : List FsRule) (j j' : Jail) : Type 0 where
  added : j'.fs_rules ≡ j.fs_rules ++ rules
  same_flags : j'.flags ≡ j.flags
  same_abi : known_abi host j'.fs_rules_landlock_abi ≡ known_abi host j.fs_rules_landlock_abi

Adds-nothing : (host : Host) (j : Jail) → Adds host [] j j
Adds-nothing host j = record {
  added = sym (append-nil j.fs_rules);
  same_flags = refl;
  same_abi = refl;
}

Adds-append :
    {host : Host} {rules rules' : List FsRule} {j j' j'' : Jail}
    → Adds host rules j j'
    → Adds host rules' j' j''
    → Adds host (rules ++ rules') j j''
Adds-append {rules = rules} {rules' = rules'} {j = j} a b = record {
  added =
      b.added
      ∙ ap (λ (xs : List FsRule). xs ++ rules') a.added
      ∙ append_assoc j.fs_rules rules rules';
  same_flags = b.same_flags ∙ a.same_flags;
  same_abi = b.same_abi ∙ a.same_abi;
}

-- What is known is not asked again.
known_abi_idem :
    (host : Host) (abi : Option ℕ) → known_abi host (known_abi host abi) ≡ known_abi host abi
unfolding known_abi
known_abi_idem host (some n) = refl
known_abi_idem host none = elim (Option-cases (known_abi host none)) [
  | inl e ↦ rw e e
  | inr (n, e) ↦ rw e refl
]

-- The counter goes on, with or without a new descriptor.
one_rule :
    (b : Bool) (host : Host) (r : FsRule) (j : Jail)
    → let more = record j { fs_rules = j.fs_rules ++ (r ∷ []) } in
      let ready = if b then setup_fs_rules_fd host more else more in
      Adds host (r ∷ []) j (record ready { fs_rules_count = ready.fs_rules_count + 1 })
unfolding setup_fs_rules_fd fs_refer_restriction_supported
one_rule true host r j = record {
  added = refl;
  same_flags = refl;
  same_abi = known_abi_idem host j.fs_rules_landlock_abi;
}
one_rule false host r j = record { added = refl; same_flags = refl; same_abi = refl }

add_fs_restriction_path-Adds :
    (host : Host) (path : Bytes) (rights : ℕ) (j : Jail)
    → Adds host (rule rights path ∷ []) j (add_fs_restriction_path host path rights j)
unfolding add_fs_restriction_path
add_fs_restriction_path-Adds host path rights j =
    one_rule (j.fs_rules_count == 0) host (rule rights path) j

-- Whether the move of files can be restricted, for a jail that knows no more than `abi`.
abbrev pub can_refer : Host → Option ℕ → Bool
can_refer host abi = at_least Landlock.abi_fs_refer_supported (known_abi host abi)

asking :
    (host : Host) (j : Jail)
    → Adds host [] j (record j { fs_rules_landlock_abi = known_abi host j.fs_rules_landlock_abi })
asking host j = record {
  added = sym (append-nil j.fs_rules);
  same_flags = refl;
  same_abi = known_abi_idem host j.fs_rules_landlock_abi;
}

advanced_rw-Adds :
    (host : Host) (path : Bytes) (j : Jail)
    → Adds host
        (rule (advanced_rights (can_refer host j.fs_rules_landlock_abi)) path ∷ [])
        j
        (minijail_add_fs_restriction_advanced_rw host path j)
unfolding minijail_add_fs_restriction_advanced_rw fs_refer_restriction_supported
advanced_rw-Adds host path j =
    let rights = advanced_rights (can_refer host j.fs_rules_landlock_abi) in
    let asked = record j { fs_rules_landlock_abi = known_abi host j.fs_rules_landlock_abi } in
    Adds-append (asking host j) (add_fs_restriction_path-Adds host path rights asked)

add_rx_paths-Adds :
    (host : Host) (paths : List Bytes) (j : Jail)
    → Adds host (rx_rules paths) j (add_rx_paths host paths j)
unfolding add_rx_paths minijail_add_fs_restriction_rx
add_rx_paths-Adds host [] j = Adds-nothing host j
add_rx_paths-Adds host (path ∷ paths) j =
    Adds-append (add_fs_restriction_path-Adds host path Landlock.roughly_read_execute j) (
      add_rx_paths-Adds host paths
        (add_fs_restriction_path host path Landlock.roughly_read_execute j))

Adds-if :
    {host : Host} {rules rules' : List FsRule} {j x y : Jail} (b : Bool)
    → Adds host rules j x
    → Adds host rules' j y
    → Adds host (if b then rules else rules') j (if b then x else y)
Adds-if true h h' = h
Adds-if false h h' = h'

add_mount_rules-Adds :
    (host : Host) (refer : Bool) (mounts : List Mountpoint) (j : Jail)
    → can_refer host j.fs_rules_landlock_abi ≡ refer
    → Adds host (all_mount_rules refer mounts) j (add_mount_rules host mounts j)
unfolding add_mount_rules minijail_add_fs_restriction_rx
add_mount_rules-Adds host refer [] j e = Adds-nothing host j
add_mount_rules-Adds host refer (m ∷ mounts) j e =
    let readable = add_fs_restriction_path host m.dest Landlock.roughly_read_execute j in
    let rx = add_fs_restriction_path-Adds host m.dest Landlock.roughly_read_execute j in
    let refer_there = ap (at_least Landlock.abi_fs_refer_supported) rx.same_abi ∙ e in
    let advanced = rw refer_there at (advanced_rw-Adds host m.dest readable) in
    let one = Adds-append rx (
      Adds-if (not (mount_has_readonly_flag m) || mount_events_allowed m) advanced
        (Adds-nothing host readable)) in
    Adds-append one (
      add_mount_rules-Adds host refer mounts _
        (ap (at_least Landlock.abi_fs_refer_supported) one.same_abi ∙ e))

defaults-Adds :
    (host : Host) (j : Jail)
    → Adds host (rx_rules default_paths) j (minijail_enable_default_fs_restrictions host j)
unfolding minijail_enable_default_fs_restrictions
defaults-Adds host j = add_rx_paths-Adds host default_paths j

add_profile_rules-Adds :
    (host : Host) (m : Mountpoint) (mounts : List Mountpoint) (vfs : Bool) (j : Jail)
    → j.flags.vfs ≡ vfs
    → Adds host (system_rules vfs) j (add_profile_rules host (m ∷ mounts) j)
unfolding add_profile_rules minijail_add_fs_restriction_edit minijail_add_fs_restriction_ro
    minijail_add_fs_restriction_rw add_fs_restriction_path
add_profile_rules-Adds host m mounts vfs j e =
    let defaults = minijail_enable_default_fs_restrictions host j in
    let edit = bit_or Landlock.roughly_read Landlock.roughly_edit in
    let dev = add_fs_restriction_path host (codes "/dev") edit defaults in
    let proc = add_fs_restriction_path host (codes "/proc") Landlock.roughly_read dev in
    let write = bit_or Landlock.roughly_read Landlock.roughly_basic_write in
    let a = defaults-Adds host j in
    let b = add_fs_restriction_path-Adds host (codes "/dev") edit defaults in
    let c = add_fs_restriction_path-Adds host (codes "/proc") Landlock.roughly_read dev in
    let d =
      Adds-if vfs (add_fs_restriction_path-Adds host (codes "/tmp") write proc)
        (Adds-nothing host proc) in
    let kept = ap (λ (f : Flags). f.vfs) (c.same_flags ∙ b.same_flags ∙ a.same_flags) ∙ e in
    rw kept (Adds-append a (Adds-append b (Adds-append c d)))

all_rules-Adds :
    (host : Host) (mounts : List Mountpoint) (j : Jail)
    → Adds host
        (profile_rules (can_refer host j.fs_rules_landlock_abi) j.flags.vfs mounts)
        j
        (add_profile_rules host mounts (add_mount_rules host mounts j))
unfolding add_profile_rules add_mount_rules
all_rules-Adds host [] j = Adds-nothing host j
all_rules-Adds host (m ∷ mounts) j =
    let rules = add_mount_rules-Adds host _ (m ∷ mounts) j refl in
    Adds-append rules (
      add_profile_rules-Adds host m mounts j.flags.vfs _
        (ap (λ (f : Flags). f.vfs) rules.same_flags))

-- What the call leaves: with the two flags the rules are added and the flags stay, and without
-- them the whole jail is as it was.
abbrev pub Profiled : Host → Jail → Bool → Jail → Type 0
Profiled host j true j' =
    (j'.fs_rules
      ≡ j.fs_rules ++ profile_rules (can_refer host j.fs_rules_landlock_abi) j.flags.vfs j.mounts)
    × (j'.flags ≡ j.flags)
Profiled host j false j' = j' ≡ j

chosen :
    (host : Host) (j x : Jail) (a b : Bool)
    → Profiled host j true x
    → Profiled host j (a && b) (if not a || not b then j else x)
chosen host j x true true h = h
chosen host j x true false h = refl
chosen host j x false b h = refl

-- With a minimalistic mount namespace and a profile, minijail_add_minimalistic_mountns_fs_rules
-- leaves the flags as they are and adds, in this order and behind the rules that are there: for
-- each mount the rights to read and execute, and those to write unless it is read-only without
-- mount events (to move files too if the kernel can restrict that); then, if there is a mount,
-- those for the libraries and programs, /dev and /proc, and for /tmp if there is a mount namespace.
-- Otherwise the whole jail stays as it is.
pub minijail_add_minimalistic_mountns_fs_rules-profile :
    (host : Host) (j : Jail)
    → Profiled host j
        (j.flags.using_minimalistic_mountns && j.flags.enable_profile_fs_restrictions)
        (minijail_add_minimalistic_mountns_fs_rules host j)
unfolding minijail_add_minimalistic_mountns_fs_rules
minijail_add_minimalistic_mountns_fs_rules-profile host j =
    let all = all_rules-Adds host j.mounts j in
    chosen host j (add_profile_rules host j.mounts (add_mount_rules host j.mounts j))
      j.flags.using_minimalistic_mountns j.flags.enable_profile_fs_restrictions
      (all.added, all.same_flags)
