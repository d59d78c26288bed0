-- ===== src/Jail/Sound/Arrays.antt =====
-- The calls that add to the arrays of a jail keep it sound.
use minijail.Base.{
  ℕ, Bool, true, false, ◌||◌, List, [], ◌∷◌, ◌++◌, length, ◌==◌, leb, Bytes, ◌≡◌, refl, arith,
}
use minijail.Jail.State.{Jail, max_cgroups, max_rlimits, max_preserved_fds, Rlimit}
use minijail.Jail.Limits.{
  hook_event_max, has_rlimit, is_negative, minijail_add_to_cgroup, minijail_rlimit,
  minijail_add_hook, minijail_preserve_fd,
}
use minijail.Jail.Sound.{
  IsSound, Keeps, sound, unchanged, Keeps-if, All-snoc, length-snoc, DistinctKinds, IsEvent,
  IsPreservable,
}

-- A disjunction that does not hold.
neither : (a b : Bool) → (a || b) ≡ false → (a ≡ false) × (b ≡ false)
neither false false e = (refl, refl)
neither false true e = cc
neither true b e = cc

has_rlimit-snoc :
    (kind : ℕ) (rlimits : List Rlimit) (r : Rlimit)
    → has_rlimit kind rlimits ≡ false
    → (r.kind == kind) ≡ false
    → has_rlimit kind (rlimits ++ (r ∷ [])) ≡ false
unfolding has_rlimit
has_rlimit-snoc kind [] r e d = ground arith
has_rlimit-snoc kind (x ∷ rlimits) r e d = ground (arith, has_rlimit-snoc kind rlimits r)

==_sym : (a b : ℕ) → (a == b) ≡ false → (b == a) ≡ false
==_sym a b e = ground arith

-- A kind that is new stays distinct at the end.
DistinctKinds-snoc :
    (rlimits : List Rlimit) (r : Rlimit)
    → has_rlimit r.kind rlimits ≡ false
    → DistinctKinds rlimits
    → DistinctKinds (rlimits ++ (r ∷ []))
unfolding has_rlimit
DistinctKinds-snoc [] r e h = (refl, tt)
DistinctKinds-snoc (x ∷ rlimits) r e (new, h) =
    let other = neither (x.kind == r.kind) (has_rlimit r.kind rlimits) e in
    (
      has_rlimit-snoc x.kind rlimits r new (==_sym x.kind r.kind other.0),
      DistinctKinds-snoc rlimits r other.1 h,
    )

pub minijail_add_to_cgroup-Keeps :
    (path : Bytes) (j : Jail) → IsSound j → Keeps j (minijail_add_to_cgroup path j)
unfolding minijail_add_to_cgroup
minijail_add_to_cgroup-Keeps path j (l, m, r, f, g, u, i, o, c, p, a) =
    Keeps-if (leb max_cgroups (length j.cgroups)) (λ e. unchanged)
      (λ e. sound (
        record {
          cgroups_fit = ground (arith, length-snoc j.cgroups path);
          rlimits_fit = l.rlimits_fit;
          rlimits_distinct = l.rlimits_distinct;
          fds_fit = l.fds_fit;
          fds_valid = l.fds_valid;
          hooks_valid = l.hooks_valid;
        },
        m,
        r,
        f,
        g,
        u,
        i,
        o,
        c,
        p,
        a,
      ))

pub minijail_rlimit-Keeps :
    (kind cur max : ℕ) (j : Jail) → IsSound j → Keeps j (minijail_rlimit kind cur max j)
unfolding minijail_rlimit
minijail_rlimit-Keeps kind cur max j (l, m, r, f, g, u, i, o, c, p, a) =
    Keeps-if (leb max_rlimits (length j.rlimits)) (λ e. unchanged)
      (λ e.
        Keeps-if (has_rlimit kind j.rlimits) (λ d. unchanged)
          (λ d. sound (
            record {
              cgroups_fit = l.cgroups_fit;
              rlimits_fit =
                  ground
                    (arith, length-snoc j.rlimits (record { kind = kind; cur = cur; max = max }));
              rlimits_distinct = DistinctKinds-snoc j.rlimits _ d l.rlimits_distinct;
              fds_fit = l.fds_fit;
              fds_valid = l.fds_valid;
              hooks_valid = l.hooks_valid;
            },
            m,
            r,
            f,
            g,
            u,
            i,
            o,
            c,
            p,
            a,
          )))

pub minijail_add_hook-Keeps :
    (hook payload event : ℕ) (j : Jail)
    → IsSound j
    → Keeps j (minijail_add_hook hook payload event j)
unfolding minijail_add_hook
minijail_add_hook-Keeps hook payload event j (l, m, r, f, g, u, i, o, c, p, a) =
    Keeps-if (leb hook_event_max event) (λ e. unchanged)
      (λ e. sound (
        record {
          cgroups_fit = l.cgroups_fit;
          rlimits_fit = l.rlimits_fit;
          rlimits_distinct = l.rlimits_distinct;
          fds_fit = l.fds_fit;
          fds_valid = l.fds_valid;
          hooks_valid = All-snoc IsEvent j.hooks l.hooks_valid (ground arith);
        },
        m,
        r,
        f,
        g,
        u,
        i,
        o,
        c,
        p,
        a,
      ))

pub minijail_preserve_fd-Keeps :
    (parent_fd child_fd : ℕ) (j : Jail)
    → IsSound j
    → Keeps j (minijail_preserve_fd parent_fd child_fd j)
unfolding minijail_preserve_fd
minijail_preserve_fd-Keeps parent_fd child_fd j (l, m, r, f, g, u, i, o, c, p, a) =
    Keeps-if (is_negative parent_fd || is_negative child_fd) (λ e. unchanged)
      (λ e.
        Keeps-if (leb max_preserved_fds (length j.preserved_fds)) (λ d. unchanged)
          (λ d. sound (
            record {
              cgroups_fit = l.cgroups_fit;
              rlimits_fit = l.rlimits_fit;
              rlimits_distinct = l.rlimits_distinct;
              fds_fit = ground (
                arith,
                length-snoc j.preserved_fds (record { parent_fd = parent_fd; child_fd = child_fd }),
              );
              fds_valid =
                  All-snoc IsPreservable j.preserved_fds l.fds_valid
                    (neither (is_negative parent_fd) (is_negative child_fd) e);
              hooks_valid = l.hooks_valid;
            },
            m,
            r,
            f,
            g,
            u,
            i,
            o,
            c,
            p,
            a,
          )))
