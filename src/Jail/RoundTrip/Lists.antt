-- ===== src/Jail/RoundTrip/Lists.antt =====
-- The mounts, cgroups and rules of a serialised jail are read back into a jail.
use minijail.Base.{
  ℕ, zero, suc, ◌+◌, ◌<◌, ◌≤◌, ◌^◌, Bool, true, false, ◌||◌, List, [], ◌∷◌, ◌++◌, if◌then◌else◌,
  ◌==◌, leb, length, Bytes, ◌≡◌, ◌≢◌, refl, ap, arith, append_assoc, append-nil, length-append,
}
use minijail.Bpf.Labels.Placed.{All}
use minijail.Util.Buffer.{NoNul}
use minijail.Jail.State.{Jail, Mountpoint, FsRule, max_cgroups}
use minijail.Jail.Answer.{returned, Host}
use minijail.Jail.FsRules.{
  add_fs_restriction_path, setup_fs_rules_fd, fs_refer_restriction_supported,
}
use minijail.Jail.Mounts.{mount_flags, new_mountpoint, append_mount, minijail_mount_with_data}
use minijail.Jail.Parse.{parsed}
use minijail.Jail.Sound.{IsMount, HasVfs}
use minijail.Jail.Wire.{le_bytes, array_bytes}
use minijail.Jail.Wire.Encoding.{string_bytes, data_bytes, mount_bytes, rule_bytes}
use minijail.Jail.Unmarshal.{read_mount, must_return, read_loop, read_cgroup, read_fs_rule}
use minijail.Jail.RoundTrip.{
  read_string-string_bytes, read_number-le_bytes, copied_number-le_bytes, IsOptions,
  read_data-data_bytes,
}

-- A mount whose strings have no NUL and whose flags are an unsigned long.
abbrev pub FitsMount : Mountpoint → Type 0
FitsMount m = NoNul m.src × NoNul m.dest × NoNul m.kind × IsOptions m.options × (m.flags < 256 ^ 8)

mount_flags-same : (flags : ℕ) → flags ≢ 0 → mount_flags flags ≡ flags
unfolding mount_flags
mount_flags-same flags h = ground arith

-- A mount of a sound jail is added as it is.
added_again :
    (m : Mountpoint) (j : Jail)
    → IsMount m
    → minijail_mount_with_data m.src m.dest m.kind m.flags m.options j
      ≡ returned 0 (append_mount m j)
unfolding minijail_mount_with_data new_mountpoint
added_again m j (d, f, o) = rw (d, mount_flags-same m.flags f, o) refl

read_mount-mount_bytes :
    (m : Mountpoint) (j : Jail) (rest : Bytes)
    → IsMount m
    → FitsMount m
    → read_mount j (mount_bytes m ++ rest) ≡ parsed (append_mount m j, rest)
unfolding read_mount must_return
read_mount-mount_bytes m j rest h (s, d, k, o, f) =
    rw
      (
        append_assoc (string_bytes m.src) _ rest,
        append_assoc (string_bytes m.dest) _ rest,
        append_assoc (string_bytes m.kind) _ rest,
        append_assoc (data_bytes m.options) (le_bytes 8 m.flags) rest,
        read_string-string_bytes m.src s _,
        read_string-string_bytes m.dest d _,
        read_string-string_bytes m.kind k _,
        read_data-data_bytes m.options o _,
        read_number-le_bytes 8 m.flags f rest,
        added_again m j h,
      )
      refl

abbrev pub with_mounts : List Mountpoint → ℕ → Jail → Jail
with_mounts mounts count j = record j { mounts = mounts; mounts_count = count }

vfs-same :
    (vfs enter_vfs : Bool) → (vfs || enter_vfs) ≡ true → (if enter_vfs then vfs else true) ≡ vfs
vfs-same true true h = refl
vfs-same true false h = refl
vfs-same false true h = refl
vfs-same false false h = cc

-- In a jail with a mount namespace a mount changes the list and its count only.
append_mount-with_mounts :
    (m : Mountpoint) (j : Jail)
    → (j.flags.vfs || j.flags.enter_vfs) ≡ true
    → append_mount m j ≡ with_mounts (j.mounts ++ (m ∷ [])) (j.mounts_count + 1) j
unfolding append_mount
append_mount-with_mounts m j h =
    ap
      (λ (v : Bool). record (with_mounts (j.mounts ++ (m ∷ [])) (j.mounts_count + 1) j) {
        flags = record j.flags { vfs = v };
      })
      (vfs-same j.flags.vfs j.flags.enter_vfs h)

add_suc : (n k : ℕ) → n + 1 + k ≡ n + suc k
add_suc n k = omega arith

add_zero : (n : ℕ) → n + 0 ≡ n
add_zero n = omega arith

add_one : (n : ℕ) → suc n + 1 ≡ suc (suc n)
add_one n = omega arith

add_suc' : (n k : ℕ) → suc (suc n) + k ≡ suc n + suc k
add_suc' n k = omega arith

one_add : (n : ℕ) → suc zero + n ≡ suc n
one_add n = omega arith

suc_test : (n : ℕ) → (suc n == 0) ≡ false
suc_test n = ground arith

below : (a b : ℕ) → a < b → leb b a ≡ false
below a b h = ground arith

HasVfs-tail :
    (mounts : List Mountpoint) (vfs enter_vfs : Bool)
    → (vfs || enter_vfs) ≡ true
    → HasVfs mounts vfs enter_vfs
HasVfs-tail [] vfs enter_vfs h = tt
HasVfs-tail (m ∷ mounts) vfs enter_vfs h = h

pub read_mounts-loop :
    (mounts before : List Mountpoint) (n : ℕ) (j : Jail) (rest : Bytes)
    → All IsMount mounts
    → All FitsMount mounts
    → HasVfs mounts j.flags.vfs j.flags.enter_vfs
    → read_loop read_mount
        (length mounts)
        (with_mounts before n j)
        (array_bytes mount_bytes mounts ++ rest)
      ≡ parsed (with_mounts (before ++ mounts) (n + length mounts) j, rest)
unfolding read_loop array_bytes
read_mounts-loop [] before n j rest h f v = rw (append-nil before, add_zero n) refl
read_mounts-loop (m ∷ mounts) before n j rest (h, hs) (f, fs) v =
    rw
      (
        append_assoc (mount_bytes m) (array_bytes mount_bytes mounts) rest,
        read_mount-mount_bytes m (with_mounts before n j) (array_bytes mount_bytes mounts ++ rest) h
            f,
        append_mount-with_mounts m (with_mounts before n j) v,
        read_mounts-loop mounts (before ++ (m ∷ [])) (n + 1) j rest hs fs
            (HasVfs-tail mounts j.flags.vfs j.flags.enter_vfs v),
        append_assoc before (m ∷ []) mounts,
        add_suc n (length mounts),
      )
      refl

read_cgroup-string_bytes :
    (path : Bytes) (j : Jail) (rest : Bytes)
    → NoNul path
    → length j.cgroups < max_cgroups
    → read_cgroup j (string_bytes path ++ rest)
      ≡ parsed (record j { cgroups = j.cgroups ++ (path ∷ []) }, rest)
unfolding read_cgroup
read_cgroup-string_bytes path j rest h few =
    rw (read_string-string_bytes path h rest, below (length j.cgroups) max_cgroups few) refl

pub read_cgroups-loop :
    (cgroups before : List Bytes) (j : Jail) (rest : Bytes)
    → All NoNul cgroups
    → length before + length cgroups ≤ max_cgroups
    → read_loop read_cgroup
        (length cgroups)
        (record j { cgroups = before })
        (array_bytes string_bytes cgroups ++ rest)
      ≡ parsed (record j { cgroups = before ++ cgroups }, rest)
unfolding read_loop array_bytes
read_cgroups-loop [] before j rest h few = rw (append-nil before) refl
read_cgroups-loop (path ∷ cgroups) before j rest (h, hs) few =
    rw
      (
        append_assoc (string_bytes path) (array_bytes string_bytes cgroups) rest,
        read_cgroup-string_bytes path (record j { cgroups = before })
            (array_bytes string_bytes cgroups ++ rest) h (omega (arith, few)),
        read_cgroups-loop cgroups (before ++ (path ∷ [])) j rest hs
            (omega (arith, few, length-append before (path ∷ []))),
        append_assoc before (path ∷ []) cgroups,
      )
      refl

-- A rule that unmarshalling accepts.
abbrev pub FitsRule : FsRule → Type 0
FitsRule r = NoNul r.path × (r.landlock_flags ≢ 0) × (r.landlock_flags < 256 ^ 8)

nonzero_test : (n : ℕ) → n ≢ 0 → (n == 0) ≡ false
nonzero_test n h = ground arith

read_fs_rule-rule_bytes :
    (host : Host) (r : FsRule) (j : Jail) (rest : Bytes)
    → FitsRule r
    → read_fs_rule host j (rule_bytes r ++ rest)
      ≡ parsed (add_fs_restriction_path host r.path r.landlock_flags j, rest)
unfolding read_fs_rule
read_fs_rule-rule_bytes host r j rest (p, nonzero, f) =
    rw
      (
        append_assoc (string_bytes r.path) (le_bytes 8 r.landlock_flags) rest,
        read_string-string_bytes r.path p _,
        copied_number-le_bytes 8 r.landlock_flags f rest,
        nonzero_test r.landlock_flags nonzero,
      )
      refl

abbrev pub with_rules : List FsRule → ℕ → Jail → Jail
with_rules rules count j = record j { fs_rules = rules; fs_rules_count = count }

-- Behind the first rule the descriptor stays.
later_rule :
    (host : Host) (r : FsRule) (before : List FsRule) (n : ℕ) (j : Jail)
    → add_fs_restriction_path host r.path r.landlock_flags (with_rules before (suc n) j)
      ≡ with_rules (before ++ (r ∷ [])) (suc n + 1) j
unfolding add_fs_restriction_path
later_rule host r before n j = rw (suc_test n) refl

first_rule :
    (host : Host) (r : FsRule) (j : Jail)
    → add_fs_restriction_path host r.path r.landlock_flags (with_rules [] 0 j)
      ≡ with_rules (r ∷ []) 1 (setup_fs_rules_fd host j)
unfolding add_fs_restriction_path setup_fs_rules_fd fs_refer_restriction_supported
first_rule host r j = refl

later_rules :
    (host : Host) (rules before : List FsRule) (n : ℕ) (j : Jail) (rest : Bytes)
    → All FitsRule rules
    → read_loop
        (read_fs_rule host)
        (length rules)
        (with_rules before (suc n) j)
        (array_bytes rule_bytes rules ++ rest)
      ≡ parsed (with_rules (before ++ rules) (suc n + length rules) j, rest)
unfolding read_loop array_bytes
later_rules host [] before n j rest h = rw (append-nil before, add_zero (suc n)) refl
later_rules host (r ∷ rules) before n j rest (h, hs) =
    rw
      (
        append_assoc (rule_bytes r) (array_bytes rule_bytes rules) rest,
        read_fs_rule-rule_bytes host r (with_rules before (suc n) j)
            (array_bytes rule_bytes rules ++ rest) h,
        later_rule host r before n j,
        add_one n,
        later_rules host rules (before ++ (r ∷ [])) (suc n) j rest hs,
        append_assoc before (r ∷ []) rules,
        add_suc' n (length rules),
      )
      refl

-- The jail before the rules are put back: with a rule the ruleset is set up again.
unfoldable pub with_ruleset : Host → List FsRule → Jail → Jail
with_ruleset host [] j = j
with_ruleset host (r ∷ rules) j = setup_fs_rules_fd host j

pub read_rules-loop :
    (host : Host) (rules : List FsRule) (j : Jail) (rest : Bytes)
    → All FitsRule rules
    → read_loop
        (read_fs_rule host)
        (length rules)
        (with_rules [] 0 j)
        (array_bytes rule_bytes rules ++ rest)
      ≡ parsed (with_rules rules (length rules) (with_ruleset host rules j), rest)
unfolding read_loop array_bytes with_ruleset
read_rules-loop host [] j rest h = refl
read_rules-loop host (r ∷ rules) j rest (h, hs) =
    rw
      (
        append_assoc (rule_bytes r) (array_bytes rule_bytes rules) rest,
        read_fs_rule-rule_bytes host r (with_rules [] 0 j) (array_bytes rule_bytes rules ++ rest) h,
        first_rule host r j,
        later_rules host rules (r ∷ []) 0 (setup_fs_rules_fd host j) rest hs,
        one_add (length rules),
      )
      refl
