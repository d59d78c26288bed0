-- ===== src/Jail/Unmarshal.antt =====
-- `minijail_unmarshal` and `minijail_copy_jail` of libminijail.c. What a failed unmarshal leaves in
-- the jail is not modelled.
use minijail.Base.{
  ℕ, zero, suc, ◌+◌, ◌-◌, ◌*◌, ◌^◌, Bool, ◌&&◌, List, [], ◌∷◌, ◌++◌, Option, none, some,
  if◌then◌else◌, ◌==◌, ltb, leb, length, take, drop, Bytes,
}
use minijail.Bpf.{Instr}
use minijail.Util.Buffer.{strnlen, consumebytes, consumestr}
use minijail.Jail.State.{Jail, max_cgroups}
use minijail.Jail.Answer.{Answer, returned, refused, died, Host}
use minijail.Jail.FsRules.{add_fs_restriction_path}
use minijail.Jail.Mounts.{minijail_mount_with_data}
use minijail.Jail.Parse.{Parse, parsed, invalid, undefined, ◌>>=◌}
use minijail.Jail.Wire.{minijail_size, minijail_marshal}

-- The number with the given bytes, the lowest first.
unfoldable pub le_value : Bytes → ℕ
le_value [] = 0
le_value (c ∷ s) = c + 256 * le_value s

-- `consumestr`, as the string without its NUL.
unfoldable pub read_string : Bytes → Parse (Bytes × Bytes)
read_string buf = elim (consumestr buf) [
  | none ↦ invalid
  | some (s, rest) ↦ parsed (take (strnlen s) s, rest)
]

-- `consumebytes` of a number.
unfoldable pub read_number : ℕ → Bytes → Parse (ℕ × Bytes)
read_number width buf = elim (consumebytes width buf) [
  | none ↦ invalid
  | some (s, rest) ↦ parsed (le_value s, rest)
]

-- A string is there if the stale pointer is not NULL.
unfoldable pub read_if : Option Bytes → Bytes → Parse (Option Bytes × Bytes)
read_if none buf = parsed (none, buf)
read_if (some _) buf = read_string buf >>= λ r. parsed (some r.0, r.1)

-- An array of `count` elements.
unfoldable pub read_array {ℓ} :
    {A : Type ℓ} → (Bytes → Parse (A × Bytes)) → ℕ → Bytes → Parse (List A × Bytes)
read_array read zero buf = parsed ([], buf)
read_array read (suc count) buf =
    read buf >>= λ r. read_array read count r.1 >>= λ rs. parsed (r.0 ∷ rs.0, rs.1)

-- NGROUPS_MAX
abbrev pub ngroups_max : ℕ
ngroups_max = 65536

-- USHRT_MAX
abbrev pub ushrt_max : ℕ
ushrt_max = 65535

unfoldable pub read_gids : Option (List ℕ) → ℕ → Bytes → Parse (Option (List ℕ) × Bytes)
read_gids none count buf = parsed (none, buf)
read_gids (some _) count buf =
    if ltb ngroups_max count
    then invalid
    else read_array (read_number 4) count buf >>= λ r. parsed (some r.0, r.1)

unfoldable pub read_instr : Bytes → Parse (Instr × Bytes)
read_instr buf = read_number 2 buf >>= λ code. read_number 1 code.1 >>= λ jt.
    read_number 1 jt.1 >>= λ jf. read_number 4 jf.1 >>= λ k.
    parsed (record { code = code.0; jt = jt.0; jf = jf.0; k = k.0 }, k.1)

-- A length above USHRT_MAX is refused, and so is one above SIZE_MAX / 8.
unfoldable pub read_filter : Bool → ℕ → Bytes → Parse (Option (List Instr) × Bytes)
read_filter seccomp_filter filter_len buf =
    if seccomp_filter && ltb 0 filter_len
    then if ltb ushrt_max filter_len
      then invalid
      else (read_array read_instr filter_len buf >>= λ r. parsed (some r.0, r.1))
    else parsed (none, buf)

-- A call that must give 0.
unfoldable pub must_return : Answer → Bytes → Parse (Jail × Bytes)
must_return (returned zero j) rest = parsed (j, rest)
must_return (returned (suc v) j) rest = invalid
must_return (refused e j) rest = invalid
must_return died rest = invalid

-- `has_data` and the options.
unfoldable pub read_data : Bytes → Parse (Option Bytes × Bytes)
read_data buf = read_number 4 buf >>= λ has_data.
    if has_data.0 == 0
    then parsed (none, has_data.1)
    else read_string has_data.1 >>= λ r. parsed (some r.0, r.1)

unfoldable pub read_mount : Jail → Bytes → Parse (Jail × Bytes)
read_mount j buf = read_string buf >>= λ src. read_string src.1 >>= λ dest.
    read_string dest.1 >>= λ kind. read_data kind.1 >>= λ options.
    read_number 8 options.1 >>= λ flags.
    must_return (minijail_mount_with_data src.0 dest.0 kind.0 flags.0 options.0 j) flags.1

-- The loops that change the jail.
unfoldable pub read_loop :
    (Jail → Bytes → Parse (Jail × Bytes)) → ℕ → Jail → Bytes → Parse (Jail × Bytes)
read_loop each zero j buf = parsed (j, buf)
read_loop each (suc count) j buf = each j buf >>= λ r. read_loop each count r.0 r.1

-- No test of the loop keeps the count within the array.
unfoldable pub read_cgroup : Jail → Bytes → Parse (Jail × Bytes)
read_cgroup j buf = read_string buf >>= λ r.
    if leb max_cgroups (length j.cgroups)
    then undefined
    else parsed (record j { cgroups = j.cgroups ++ (r.0 ∷ []) }, r.1)

-- The rights are copied where they may be missing; only then are they and the path looked at.
unfoldable pub copied_number : ℕ → Bytes → Parse (ℕ × Bytes)
copied_number width buf = elim (consumebytes width buf) [
  | none ↦ undefined
  | some (s, rest) ↦ parsed (le_value s, rest)
]

unfoldable pub read_fs_rule : Host → Jail → Bytes → Parse (Jail × Bytes)
read_fs_rule host j buf = read_string buf >>= λ path. copied_number 8 path.1 >>= λ rights.
    if rights.0 == 0
    then invalid
    else parsed (add_fs_restriction_path host path.0 rights.0 j, rights.1)

-- -1 is the only negative descriptor.
abbrev pub fd_of : ℕ → Option ℕ
fd_of n = if n == 2 ^ 32 - 1 then none else some n

unfoldable pub read_fs_rules_fd : Jail → Bytes → Parse (Jail × Bytes)
read_fs_rules_fd j buf = copied_number 4 buf >>= λ fd.
    if fd.0 == 0 then invalid else parsed (record j { fs_rules_fd = fd_of fd.0 }, fd.1)

-- The pointers that are reset at once.
unfoldable pub without_stale : Jail → Jail
without_stale j = record j {
  preload_path = none;
  filename = none;
  pid_file_path = none;
  uidmap = none;
  gidmap = none;
  mounts = [];
  remounts = [];
  filter_prog = none;
  hooks = [];
  fs_rules = [];
}

unfoldable pub read_identity : Jail → Bytes → Parse (Jail × Bytes)
read_identity j buf = read_if j.user buf >>= λ user.
    read_gids j.suppl_gid_list j.suppl_gid_count user.1 >>= λ gids.
    parsed (record j { user = user.0; suppl_gid_list = gids.0 }, gids.1)

unfoldable pub read_paths : Jail → Bytes → Parse (Jail × Bytes)
read_paths j buf = read_if j.chrootdir buf >>= λ chrootdir.
    read_if j.hostname chrootdir.1 >>= λ hostname.
    read_if j.alt_syscall_table hostname.1 >>= λ table. parsed (
      record j { chrootdir = chrootdir.0; hostname = hostname.0; alt_syscall_table = table.0 },
      table.1,
    )

unfoldable pub read_program : Jail → Bytes → Parse (Jail × Bytes)
read_program j buf = read_filter j.flags.seccomp_filter j.filter_len buf >>= λ filter.
    parsed (record j { filter_prog = filter.0 }, filter.1)

unfoldable pub read_mounts : Jail → Bytes → Parse (Jail × Bytes)
read_mounts j buf = read_loop read_mount j.mounts_count (record j { mounts_count = 0 }) buf

unfoldable pub read_cgroups : Jail → Bytes → Parse (Jail × Bytes)
read_cgroups j buf = read_loop read_cgroup (length j.cgroups) (record j { cgroups = [] }) buf

unfoldable pub read_fs_rules : Host → Jail → Bytes → Parse (Jail × Bytes)
read_fs_rules host j buf =
    read_loop (read_fs_rule host) j.fs_rules_count (record j { fs_rules_count = 0 }) buf

unfoldable pub read_policy_path : Jail → Bytes → Parse Jail
read_policy_path j buf =
    read_if j.seccomp_policy_path buf >>= λ path. parsed (record j { seccomp_policy_path = path.0 })

-- What follows the structure, read into the structure with its stale pointers.
unfoldable pub read_tail : Host → Jail → Bytes → Parse Jail
read_tail host j buf = read_identity (without_stale j) buf >>= λ identity.
    read_paths identity.0 identity.1 >>= λ paths. read_program paths.0 paths.1 >>= λ program.
    read_mounts program.0 program.1 >>= λ mounts. read_cgroups mounts.0 mounts.1 >>= λ cgroups.
    read_fs_rules host cgroups.0 cgroups.1 >>= λ rules.
    read_fs_rules_fd rules.0 rules.1 >>= λ fd. read_policy_path fd.0 fd.1

-- `restore` is the copy into the structure: a pointer that is not NULL gives some string or list,
-- which says nothing, and the array of cgroups gives as many of them as the count says.
module _ (sizeof_jail : ℕ) (restore : Bytes → Jail) where
  unfoldable pub minijail_unmarshal : Host → Bytes → Parse Jail
  minijail_unmarshal host serialized =
      if ltb (length serialized) sizeof_jail
      then invalid
      else read_tail host (restore (take sizeof_jail serialized)) (drop sizeof_jail serialized)

  -- -EINVAL for a size of 0, the 1 of a marshalling that does not fit, and what unmarshalling gives.
  unfoldable pub minijail_copy_jail : (Jail → Bytes) → Host → Jail → Parse Jail
  minijail_copy_jail image host from =
      let sz = minijail_size image from in
      let (buf, failed) = minijail_marshal image from sz in
      if sz == 0 then invalid else if failed then invalid else minijail_unmarshal host buf
