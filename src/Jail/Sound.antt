-- ===== src/Jail/Sound.antt =====
-- What holds of every jail that the calls of libminijail.c build.
pub mod Arrays
pub mod Users
pub mod Roots
pub mod Rules
pub mod MountList
pub mod Filters
pub mod Run
use minijail.Base.{
  ℕ, ◌+◌, ◌≤◌, ◌<◌, Bool, true, false, not, ◌&&◌, ◌||◌, List, [], ◌∷◌, ◌++◌, Option, none, some,
  length, if◌then◌else◌, Bytes, ◌≡◌, ◌≢◌, refl, ap, ◌∙◌, arith, length-append, Bool-cases, ltb, ◌⊎◌,
  inl, inr,
}
use minijail.Bpf.{Instr}
use minijail.Bpf.Labels.Placed.{All}
use minijail.Jail.State.{
  Jail, Mountpoint, Remount, Hook, FsRule, Rlimit, PreservedFd, max_cgroups, max_rlimits,
  max_preserved_fds,
}
use minijail.Jail.Answer.{Answer, returned, refused, died}
use minijail.Jail.Errno
use minijail.Jail.Limits.{has_rlimit, is_negative, hook_event_max}
use minijail.Jail.Mounts.{is_absolute, mount_data}

-- No kind of limit is set twice.
abbrev pub DistinctKinds : List Rlimit → Type 0
DistinctKinds [] = Unit
DistinctKinds (r ∷ rlimits) = (has_rlimit r.kind rlimits ≡ false) × DistinctKinds rlimits

abbrev pub IsPreservable : PreservedFd → Type 0
IsPreservable fd = (is_negative fd.parent_fd ≡ false) × (is_negative fd.child_fd ≡ false)

abbrev pub IsEvent : Hook → Type 0
IsEvent hook = hook.event < hook_event_max

-- The arrays are within their bounds.
pub record LimitsHold (cgroups : List Bytes) (rlimits : List Rlimit) (fds : List PreservedFd)
    (hooks : List Hook) : Type 0 where
  pub cgroups_fit : length cgroups ≤ max_cgroups
  pub rlimits_fit : length rlimits ≤ max_rlimits
  pub rlimits_distinct : DistinctKinds rlimits
  pub fds_fit : length fds ≤ max_preserved_fds
  pub fds_valid : All IsPreservable fds
  pub hooks_valid : All IsEvent hooks

-- The destination is absolute, the flags are set, and tmpfs has its options.
abbrev pub IsMount : Mountpoint → Type 0
IsMount m = (is_absolute m.dest ≡ true) × (m.flags ≢ 0) × (mount_data m.kind m.options ≡ m.options)

abbrev pub IsRemount : Remount → Type 0
IsRemount r = is_absolute r.mount_name ≡ true

-- A jail with mounts has a mount namespace of its own or enters one.
abbrev pub HasVfs : List Mountpoint → Bool → Bool → Type 0
HasVfs [] vfs enter_vfs = Unit
HasVfs (m ∷ mounts) vfs enter_vfs = (vfs || enter_vfs) ≡ true

pub record MountsHold (mounts : List Mountpoint) (count : ℕ) (remounts : List Remount)
    (vfs enter_vfs : Bool) : Type 0 where
  pub mounts_valid : All IsMount mounts
  pub mounts_counted : count ≡ length mounts
  pub mounts_inside : HasVfs mounts vfs enter_vfs
  pub remounts_valid : All IsRemount remounts

-- The program has the length that is kept beside it.
abbrev pub Counts {ℓ} : {A : Type ℓ} → ℕ → Option (List A) → Type 0
Counts n none = n ≡ 0
Counts n (some xs) = n ≡ length xs

-- A user identity that is switched to is not that of root.
abbrev pub IsSwitch : Bool → ℕ → Type 0
IsSwitch false id = Unit
IsSwitch true id = id ≢ 0

-- A flag says that a path is set.
abbrev pub Backs : Option Bytes → Bool → Type 0
Backs none flag = flag ≡ false
Backs (some path) flag = Unit

-- The root of the jail is changed in one way at most, and to a directory.
abbrev pub IsRoot : Option Bytes → Bool → Bool → Type 0
IsRoot dir chroot pivot_root = Backs dir (chroot || pivot_root) × ((chroot && pivot_root) ≡ false)

-- The invariant: limits, mounts, rules, filter, supplementary groups, user, group, root,
-- capabilities, pid file and system call table. Each part names the fields that it is about.
abbrev pub IsSound : Jail → Type 0
IsSound j =
    LimitsHold j.cgroups j.rlimits j.preserved_fds j.hooks
    × MountsHold j.mounts j.mounts_count j.remounts j.flags.vfs j.flags.enter_vfs
    × (j.fs_rules_count ≡ length j.fs_rules)
    × Counts j.filter_len j.filter_prog
    × Counts j.suppl_gid_count j.suppl_gid_list
    × IsSwitch j.flags.uid j.uid
    × IsSwitch j.flags.gid j.gid
    × IsRoot j.chrootdir j.flags.chroot j.flags.pivot_root
    × ((j.flags.use_caps && j.flags.capbset_drop) ≡ false)
    × Backs j.pid_file_path j.flags.pid_file
    × Backs j.alt_syscall_table j.flags.alt_syscall

-- The invariant under a name, which shows the jail that it is about.
pub record Sound (j : Jail) : Type 0 where
  pub parts : IsSound j

pub Sound-if : {x y : Jail} (b : Bool) → Sound x → Sound y → Sound (if b then x else y)
Sound-if true s t = s
Sound-if false s t = t

-- An answer that leaves a sound jail behind a value and behind -ENOMEM, and the jail as it was
-- behind another error.
pub data Keeps (j : Jail) : Answer → Type 0 where
  sound : {v : ℕ} {j' : Jail} → IsSound j' → Keeps j (returned v j')
  unchanged : {e : ℕ} → Keeps j (refused e j)
  partly : {j' : Jail} → IsSound j' → Keeps j (refused Errno.enomem j')
  dies : Keeps j died

pub kept : {v : ℕ} {j j' : Jail} → Sound j' → Keeps j (returned v j')
kept s = sound s.parts

pub named : (j : Jail) → IsSound j → Sound j
named j s = record { parts = s }

-- A test splits what is to be shown.
pub Keeps-if :
    {j : Jail} {x y : Answer} (b : Bool)
    → ((b ≡ true) → Keeps j x)
    → ((b ≡ false) → Keeps j y)
    → Keeps j (if b then x else y)
Keeps-if true f g = f refl
Keeps-if false f g = g refl

pub Keeps-option {ℓ} :
    {A : Type ℓ} {j : Jail} {x : Answer} {f : A → Answer} (found : Option A)
    → ((found ≡ none) → Keeps j x)
    → ((a : A) → Keeps j (f a))
    → Keeps j (elim found [ none ↦ x | some a ↦ f a ])
Keeps-option none n s = n refl
Keeps-option (some a) n s = s a

pub HasVfs-vfs : (mounts : List Mountpoint) (enter_vfs : Bool) → HasVfs mounts true enter_vfs
HasVfs-vfs [] e = tt
HasVfs-vfs (m ∷ mounts) e = refl

pub HasVfs-enter : (mounts : List Mountpoint) (vfs : Bool) → HasVfs mounts vfs true
HasVfs-enter [] v = tt
HasVfs-enter (m ∷ mounts) true = refl
HasVfs-enter (m ∷ mounts) false = refl

-- One more element at the end.
pub All-snoc {ℓ κ} :
    {A : Type ℓ} (P : A → Type κ) (xs : List A) {a : A} → All P xs → P a → All P (xs ++ (a ∷ []))
All-snoc P [] h p = (p, tt)
All-snoc P (x ∷ xs) (h, hs) p = (h, All-snoc P xs hs p)

pub length-snoc {ℓ} : {A : Type ℓ} (xs : List A) (a : A) → length (xs ++ (a ∷ [])) ≡ length xs + 1
length-snoc xs a = length-append xs (a ∷ [])

pub holds_otherwise : (b : Bool) → not b ≡ false → b ≡ true
holds_otherwise true e = refl
holds_otherwise false e = cc
