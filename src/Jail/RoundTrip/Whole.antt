-- ===== src/Jail/RoundTrip/Whole.antt =====
-- A serialised jail as a whole is read back.
use minijail.Base.{
  ℕ, ◌+◌, ◌-◌, ◌<◌, ◌≤◌, ◌^◌, false, List, [], ◌∷◌, ◌++◌, Option, none, some, ◌==◌, ltb, length,
  take, Bytes, ◌≡◌, ◌≢◌, refl, sym, ap, ◌∙◌, arith, append-nil, length-append,
}
use mathlib.Core.Path.{subst}
use minijail.Bpf.Labels.Placed.{All}
use minijail.Util.Buffer.{NoNul}
use minijail.Jail.State.{Jail, Flags, FsRule, max_cgroups}
use minijail.Jail.Answer.{Host}
use minijail.Jail.FsRules.{setup_fs_rules_fd, fs_refer_restriction_supported, known_abi}
use minijail.Jail.Parse.{parsed, >>=-step}
use minijail.Jail.Sound.{IsSound, MountsHold, HasVfs}
use minijail.Jail.Wire.{fd_bytes, array_bytes, minijail_size}
use minijail.Jail.Wire.Encoding.{
  string_bytes, if_bytes, gids_bytes, filter_bytes, mount_bytes, rule_bytes, tail_bytes, encoding,
  minijail_marshal-fits,
}
use minijail.Jail.Unmarshal.{
  read_loop, read_fs_rule, fd_of, read_fs_rules_fd, without_stale, read_identity, read_paths,
  read_program, read_mounts, read_cgroups, read_fs_rules, read_policy_path, read_tail,
  minijail_unmarshal, minijail_copy_jail,
}
use minijail.Jail.RoundTrip.{
  take_exact, drop_exact, not_longer, SameShape, NoNulIf, AreGids, IsProgram, kept_filter,
  read_if-if_bytes, read_gids-gids_bytes, read_filter-filter_bytes, copied_number-le_bytes,
}
use minijail.Jail.RoundTrip.Lists.{
  FitsMount, FitsRule, with_mounts, with_rules, with_ruleset, read_mounts-loop, read_cgroups-loop,
  read_rules-loop,
}

-- 0 is refused, and -1 says that there is none.
abbrev pub IsRulesFd : Option ℕ → Type 0
IsRulesFd none = Unit
IsRulesFd (some fd) = (fd ≢ 0) × (fd < 2 ^ 31)

-- What a jail must be for its bytes to say all of it: strings without a NUL, numbers within their
-- types, at most NGROUPS_MAX groups and USHRT_MAX instructions, no rule without rights, and no rules
-- descriptor 0.
pub record IsEncodable (j : Jail) : Type 0 where
  pub user_fits : NoNulIf j.user
  pub gids_fit : AreGids j.suppl_gid_count j.suppl_gid_list
  pub chrootdir_fits : NoNulIf j.chrootdir
  pub hostname_fits : NoNulIf j.hostname
  pub table_fits : NoNulIf j.alt_syscall_table
  pub program_fits : IsProgram j.filter_len j.filter_prog
  pub mounts_fit : All FitsMount j.mounts
  pub cgroups_fit : All NoNul j.cgroups
  pub rules_fit : All FitsRule j.fs_rules
  pub fd_fits : IsRulesFd j.fs_rules_fd
  pub policy_fits : NoNulIf j.seccomp_policy_path

-- The copy of a structure: its numbers, flags and arrays of numbers, and pointers of which only
-- what is NULL can be known.
abbrev pub stale : Jail → Jail → Jail
stale p j = record j {
  user = p.user;
  suppl_gid_list = p.suppl_gid_list;
  chrootdir = p.chrootdir;
  pid_file_path = p.pid_file_path;
  uidmap = p.uidmap;
  gidmap = p.gidmap;
  hostname = p.hostname;
  preload_path = p.preload_path;
  filename = p.filename;
  filter_prog = p.filter_prog;
  alt_syscall_table = p.alt_syscall_table;
  mounts = p.mounts;
  remounts = p.remounts;
  fs_rules = p.fs_rules;
  cgroups = p.cgroups;
  hooks = p.hooks;
  seccomp_policy_path = p.seccomp_policy_path;
}

pub record Resembles (p j : Jail) : Type 0 where
  pub user_shape : SameShape p.user j.user
  pub gids_shape : SameShape p.suppl_gid_list j.suppl_gid_list
  pub chrootdir_shape : SameShape p.chrootdir j.chrootdir
  pub hostname_shape : SameShape p.hostname j.hostname
  pub table_shape : SameShape p.alt_syscall_table j.alt_syscall_table
  pub policy_shape : SameShape p.seccomp_policy_path j.seccomp_policy_path
  pub cgroups_shape : length p.cgroups ≡ length j.cgroups

-- The first rule asks for the version of Landlock if it is not known.
abbrev pub abi_after : Host → List FsRule → Option ℕ → Option ℕ
abi_after host [] abi = abi
abi_after host (r ∷ rules) abi = known_abi host abi

-- The jail that comes back: what is not serialised is gone, and with rules the version of Landlock
-- is known.
abbrev pub unmarshalled : Host → Jail → Jail
unmarshalled host j = record j {
  preload_path = none;
  filename = none;
  pid_file_path = none;
  uidmap = none;
  gidmap = none;
  remounts = [];
  hooks = [];
  filter_prog = kept_filter j.flags.seccomp_filter j.filter_prog;
  fs_rules_landlock_abi = abi_after host j.fs_rules j.fs_rules_landlock_abi;
}

read_identity-bytes :
    (t j : Jail) (rest : Bytes)
    → SameShape t.user j.user
    → SameShape t.suppl_gid_list j.suppl_gid_list
    → t.suppl_gid_count ≡ j.suppl_gid_count
    → IsEncodable j
    → read_identity t (if_bytes j.user ++ (gids_bytes j.suppl_gid_list ++ rest))
      ≡ parsed (record t { user = j.user; suppl_gid_list = j.suppl_gid_list }, rest)
unfolding read_identity
read_identity-bytes t j rest u g c e =
    rw
      (
        read_if-if_bytes t.user j.user u e.user_fits _,
        c,
        read_gids-gids_bytes t.suppl_gid_list j.suppl_gid_list j.suppl_gid_count g e.gids_fit rest,
      )
      refl

read_paths-bytes :
    (t j : Jail) (rest : Bytes)
    → SameShape t.chrootdir j.chrootdir
    → SameShape t.hostname j.hostname
    → SameShape t.alt_syscall_table j.alt_syscall_table
    → IsEncodable j
    → read_paths t
        (if_bytes j.chrootdir ++ (if_bytes j.hostname ++ (if_bytes j.alt_syscall_table ++ rest)))
      ≡ parsed (
        record t {
          chrootdir = j.chrootdir;
          hostname = j.hostname;
          alt_syscall_table = j.alt_syscall_table;
        },
        rest,
      )
unfolding read_paths
read_paths-bytes t j rest c h a e =
    rw
      (
        read_if-if_bytes t.chrootdir j.chrootdir c e.chrootdir_fits _,
        read_if-if_bytes t.hostname j.hostname h e.hostname_fits _,
        read_if-if_bytes t.alt_syscall_table j.alt_syscall_table a e.table_fits rest,
      )
      refl

fd_of-fd : (fd : ℕ) → fd < 2 ^ 31 → fd_of fd ≡ some fd
fd_of-fd fd h = ground arith

nonzero_fd : (fd : ℕ) → fd ≢ 0 → (fd == 0) ≡ false
nonzero_fd fd h = ground arith

read_fs_rules_fd-fd_bytes :
    (t : Jail) (fd : Option ℕ) (rest : Bytes)
    → IsRulesFd fd
    → read_fs_rules_fd t (fd_bytes fd ++ rest) ≡ parsed (record t { fs_rules_fd = fd }, rest)
unfolding read_fs_rules_fd fd_bytes
read_fs_rules_fd-fd_bytes t none rest h =
    rw (copied_number-le_bytes 4 (2 ^ 32 - 1) (omega arith) rest) refl
read_fs_rules_fd-fd_bytes t (some fd) rest (n, h) =
    rw (copied_number-le_bytes 4 fd (omega (arith, h)) rest, nonzero_fd fd n, fd_of-fd fd h) refl

-- What the rules change beside their list.
abbrev ready : Host → List FsRule → Jail → Jail
ready host rules t = record t {
  fs_rules_fd = (with_ruleset host rules t).fs_rules_fd;
  fs_rules_landlock_abi = abi_after host rules t.fs_rules_landlock_abi;
}

with_ruleset-fields :
    (host : Host) (rules : List FsRule) (t : Jail) → with_ruleset host rules t ≡ ready host rules t
unfolding with_ruleset setup_fs_rules_fd fs_refer_restriction_supported
with_ruleset-fields host [] t = refl
with_ruleset-fields host (r ∷ rules) t = refl

read_program-bytes :
    (t j : Jail) (rest : Bytes)
    → t.filter_len ≡ j.filter_len
    → t.flags.seccomp_filter ≡ j.flags.seccomp_filter
    → IsEncodable j
    → read_program t (filter_bytes j.flags.seccomp_filter j.filter_prog ++ rest)
      ≡ parsed (record t { filter_prog = kept_filter j.flags.seccomp_filter j.filter_prog }, rest)
unfolding read_program
read_program-bytes t j rest n b e =
    rw
      (
        n,
        b,
        read_filter-filter_bytes j.flags.seccomp_filter j.filter_prog j.filter_len e.program_fits
            rest,
      )
      refl

read_policy_path-bytes :
    (t j : Jail)
    → SameShape t.seccomp_policy_path j.seccomp_policy_path
    → IsEncodable j
    → read_policy_path t (if_bytes j.seccomp_policy_path)
      ≡ parsed (record t { seccomp_policy_path = j.seccomp_policy_path })
unfolding read_policy_path
read_policy_path-bytes t j p e =
    let all = append-nil (if_bytes j.seccomp_policy_path) in
    let reads = read_if-if_bytes t.seccomp_policy_path j.seccomp_policy_path p e.policy_fits [] in
    rw (rw all at reads) refl

zero_add : (n : ℕ) → 0 + n ≡ n
zero_add n = omega arith

read_mounts-bytes :
    (t j : Jail) (rest : Bytes)
    → t.mounts ≡ []
    → t.mounts_count ≡ j.mounts_count
    → t.flags ≡ j.flags
    → MountsHold j.mounts j.mounts_count j.remounts j.flags.vfs j.flags.enter_vfs
    → IsEncodable j
    → read_mounts t (array_bytes mount_bytes j.mounts ++ rest)
      ≡ parsed (with_mounts j.mounts j.mounts_count t, rest)
unfolding read_mounts
read_mounts-bytes t j rest none_yet n flags m e =
    let inside =
      subst (λ (f : Flags). HasVfs j.mounts f.vfs f.enter_vfs) (sym flags) m.mounts_inside in
    rw
      (
        n,
        m.mounts_counted,
        none_yet,
        read_mounts-loop j.mounts [] 0 t rest m.mounts_valid e.mounts_fit inside,
        zero_add (length j.mounts),
      )
      refl

read_cgroups-bytes :
    (t j : Jail) (rest : Bytes)
    → length t.cgroups ≡ length j.cgroups
    → length j.cgroups ≤ max_cgroups
    → IsEncodable j
    → read_cgroups t (array_bytes string_bytes j.cgroups ++ rest)
      ≡ parsed (record t { cgroups = j.cgroups }, rest)
unfolding read_cgroups
read_cgroups-bytes t j rest n few e =
    rw (n, read_cgroups-loop j.cgroups [] t rest e.cgroups_fit (omega (arith, few))) refl

read_fs_rules-bytes :
    (host : Host) (t j : Jail) (rest : Bytes)
    → t.fs_rules ≡ []
    → t.fs_rules_count ≡ j.fs_rules_count
    → j.fs_rules_count ≡ length j.fs_rules
    → IsEncodable j
    → read_fs_rules host t (array_bytes rule_bytes j.fs_rules ++ rest)
      ≡ parsed (with_rules j.fs_rules j.fs_rules_count (ready host j.fs_rules t), rest)
unfolding read_fs_rules
read_fs_rules-bytes host t j rest none_yet n counted e =
    let rules = j.fs_rules in
    let buf = array_bytes rule_bytes rules ++ rest in
    ap (λ (c : ℕ). read_loop (read_fs_rule host) c (record t { fs_rules_count = 0 }) buf)
      (n ∙ counted)
    ∙ ap
        (λ (before : List FsRule).
          read_loop (read_fs_rule host) (length rules) (with_rules before 0 t) buf)
        none_yet
    ∙ read_rules-loop host rules t rest e.rules_fit
    ∙ ap (λ (u : Jail). parsed (with_rules rules (length rules) u, rest))
        (with_ruleset-fields host rules t)
    ∙ ap (λ (c : ℕ). parsed (with_rules rules c (ready host rules t), rest)) (sym counted)

read_tail-bytes :
    (host : Host) (p j : Jail)
    → Resembles p j
    → IsSound j
    → IsEncodable j
    → read_tail host (stale p j) (tail_bytes j) ≡ parsed (unmarshalled host j)
unfolding read_tail without_stale read_mounts read_cgroups read_fs_rules
read_tail-bytes host p j s (l, m, r, _, _, _, _, _, _, _, _) e =
    >>=-step _
      (read_identity-bytes (without_stale (stale p j)) j _ s.user_shape s.gids_shape refl e)
      (>>=-step _ (read_paths-bytes _ j _ s.chrootdir_shape s.hostname_shape s.table_shape e) (
        >>=-step _ (read_program-bytes _ j _ refl refl e) (
          >>=-step _ (read_mounts-bytes _ j _ refl refl refl m e) (
            >>=-step _ (read_cgroups-bytes _ j _ s.cgroups_shape l.cgroups_fit e) (
              >>=-step _ (read_fs_rules-bytes host _ j _ refl refl r e) (
                >>=-step _ (read_fs_rules_fd-fd_bytes _ j.fs_rules_fd _ e.fd_fits)
                  (read_policy_path-bytes _ j s.policy_shape e)))))))

take_all : (xs : Bytes) → take (length xs) xs ≡ xs
take_all [] = refl
take_all (x ∷ xs) = ap (◌∷◌ x) (take_all xs)

not_below : (n : ℕ) → ltb n n ≡ false
not_below n = ground arith

not_zero : (xs : Bytes) → 0 < length xs → (length xs == 0) ≡ false
not_zero xs h = ground arith

module _ (sizeof_jail : ℕ) (image : Jail → Bytes) (restore : Bytes → Jail) (host : Host)
    (p j : Jail) (sized : length (image j) ≡ sizeof_jail) (copied : restore (image j) ≡ stale p j)
    (alike : Resembles p j) where
  -- The bytes of a sound jail give the jail back, without what is not serialised.
  pub minijail_unmarshal-encoding :
      IsSound j
      → IsEncodable j
      → minijail_unmarshal sizeof_jail restore host (encoding image j)
        ≡ parsed (unmarshalled host j)
  unfolding minijail_unmarshal
  minijail_unmarshal-encoding s e =
      rw
        (
          sym sized,
          not_longer (image j) (tail_bytes j),
          take_exact (image j) (tail_bytes j),
          drop_exact (image j) (tail_bytes j),
          copied,
        )
        (read_tail-bytes host p j alike s e)

  longer : 0 < sizeof_jail → 0 < length (encoding image j)
  longer h = omega (arith, h, sized, length-append (image j) (tail_bytes j))

  -- Let the structure have a size, let its bytes be as many, and let copying them back give its
  -- fields, of a pointer only whether it is NULL. Then minijail_copy_jail, that is minijail_size,
  -- minijail_marshal and minijail_unmarshal, succeeds on a sound jail that can be serialised: its
  -- strings have no NUL, its numbers fit their types, every rule has rights other than 0, the
  -- descriptor for rules is -1 or above 0, there are at most NGROUPS_MAX supplementary groups and
  -- at most USHRT_MAX instructions. The copy differs from the jail only as follows: the preload
  -- path, file name, pid file, uid map, gid map, remounts and hooks are gone; the program is kept
  -- only if it is not empty and the flag seccomp_filter is set; and if there are rules, the version
  -- of Landlock is asked for where it is not known.
  pub minijail_copy_jail-copies :
      0 < sizeof_jail
      → IsSound j
      → IsEncodable j
      → minijail_copy_jail sizeof_jail restore image host j ≡ parsed (unmarshalled host j)
  unfolding minijail_copy_jail
  minijail_copy_jail-copies some_size s e =
      let (size, written, failed) = minijail_marshal-fits image j (minijail_size image j) in
      rw
        (
          failed,
          written,
          size,
          not_zero (encoding image j) (longer some_size),
          not_below (length (encoding image j)),
          take_all (encoding image j),
        )
        (minijail_unmarshal-encoding s e)
