-- ===== src/Jail/Sound/Filters.antt =====
-- The calls that choose the seccomp filter keep a jail sound.
use minijail.Base.{ℕ, Bool, true, false, not, ◌&&◌, List, Option, some, if◌then◌else◌, Bytes, refl}
use minijail.Bpf.{Instr}
use minijail.Filter.Outcome.{Outcome, done, fail, die, ◌>>=◌}
use minijail.Jail.State.{Jail}
use minijail.Jail.Answer.{Host}
use minijail.Jail.Seccomp.{
  has_filter, seccomp_is_logging_allowed, minijail_set_seccomp_filter_tsync,
  minijail_set_seccomp_filter_allow_speculation, minijail_log_seccomp_filter_failures,
  clear_seccomp_options, seccomp_missing, tsync_missing, flag_spec_allow,
  seccomp_should_use_filters, set_seccomp_filters_internal, parse_seccomp_filters, with_policy_path,
  minijail_parse_seccomp_filters, minijail_parse_seccomp_filters_from_fd,
  minijail_set_seccomp_filters,
}
use minijail.Jail.Sound.{IsSound, Sound, Sound-if, Keeps, sound, dies, Keeps-if, Keeps-option}

pub minijail_set_seccomp_filter_tsync-Keeps :
    (host : Host) (j : Jail) → IsSound j → Keeps j (minijail_set_seccomp_filter_tsync host j)
unfolding minijail_set_seccomp_filter_tsync
minijail_set_seccomp_filter_tsync-Keeps host j s =
    Keeps-if (has_filter j) (λ e. dies)
      (λ e.
        Keeps-if (seccomp_is_logging_allowed host j && not host.seccomp_ret_log_available)
          (λ d. dies) (λ d. sound s))

pub minijail_set_seccomp_filter_allow_speculation-Keeps :
    (j : Jail) → IsSound j → Keeps j (minijail_set_seccomp_filter_allow_speculation j)
unfolding minijail_set_seccomp_filter_allow_speculation
minijail_set_seccomp_filter_allow_speculation-Keeps j s =
    Keeps-if (has_filter j) (λ e. dies) (λ e. sound s)

pub minijail_log_seccomp_filter_failures-Keeps :
    (host : Host) (j : Jail) → IsSound j → Keeps j (minijail_log_seccomp_filter_failures host j)
unfolding minijail_log_seccomp_filter_failures
minijail_log_seccomp_filter_failures-Keeps host j s =
    Keeps-if (has_filter j) (λ e. dies)
      (λ e.
        Keeps-if (j.flags.seccomp_filter_tsync && not host.seccomp_ret_log_available) (λ d. dies)
          (λ d.
            sound
              (Sound-if host.debug_logging_allowed (record { parts = s })
                (record { parts = s })).parts))

cleared : {j : Jail} → Sound j → Sound (clear_seccomp_options j)
unfolding clear_seccomp_options
cleared s =
    let (l, m, r, f, g, u, i, o, c, p, a) = s.parts in
    record { parts = (l, m, r, refl, g, u, i, o, c, p, a) }

Checked-if : (x y : Bool × Jail) (b : Bool) → Sound x.1 → Sound y.1 → Sound (if b then x else y).1
Checked-if x y true s t = s
Checked-if x y false s t = t

-- The jail behind the check.
checked : (host : Host) {j : Jail} → Sound j → Sound (seccomp_should_use_filters host j).1
unfolding seccomp_should_use_filters
checked host {j = j} s =
    let cleared_jail : Bool × Jail = (false, clear_seccomp_options j) in
    let slower : Jail = record j {
      flags = record j.flags { seccomp_filter_allow_speculation = false };
    } in
    let unavailable = not (host.seccomp_filter_flags_available flag_spec_allow) in
    Checked-if cleared_jail _ (seccomp_missing host) (cleared s) (
      Checked-if cleared_jail _ (j.flags.seccomp_filter_tsync && tsync_missing host) (cleared s) (
        Checked-if (true, slower) (true, j)
          (j.flags.seccomp_filter_allow_speculation && unavailable) (record { parts = s.parts }) s))

internal :
    (filter : List Instr) {j : Jail} → Sound j → Sound (set_seccomp_filters_internal filter j)
unfolding set_seccomp_filters_internal
internal filter s =
    let (l, m, r, f, g, u, i, o, c, p, a) = s.parts in
    record { parts = (l, m, r, refl, g, u, i, o, c, p, a) }

-- The program and the path of the policy are set together, or the process ends.
with_policy_path-Keeps :
    {j₀ j : Jail} (path : Option Bytes) (compiled : Outcome (List Instr))
    → Sound j
    → Keeps j₀
        (with_policy_path path (compiled >>= λ prog. done (set_seccomp_filters_internal prog j)))
unfolding with_policy_path
with_policy_path-Keeps path (done prog) s = sound (internal prog s).parts
with_policy_path-Keeps path fail s = dies
with_policy_path-Keeps path die s = dies

pub minijail_parse_seccomp_filters-Keeps :
    (host : Host) (path : Bytes) (j : Jail)
    → Sound j
    → Keeps j (minijail_parse_seccomp_filters host path j)
unfolding minijail_parse_seccomp_filters parse_seccomp_filters
minijail_parse_seccomp_filters-Keeps host path j s =
    Keeps-if (not (seccomp_should_use_filters host j).0) (λ e. sound (checked host s).parts)
      (λ e.
        Keeps-option (host.fopen path) (λ d. dies)
          (λ file. with_policy_path-Keeps (some path) _ (checked host s)))

pub minijail_parse_seccomp_filters_from_fd-Keeps :
    (host : Host) (fd : ℕ) (j : Jail)
    → Sound j
    → Keeps j (minijail_parse_seccomp_filters_from_fd host fd j)
unfolding minijail_parse_seccomp_filters_from_fd parse_seccomp_filters
minijail_parse_seccomp_filters_from_fd-Keeps host fd j s =
    Keeps-if (not (seccomp_should_use_filters host j).0) (λ e. sound (checked host s).parts)
      (λ e.
        Keeps-option (host.fdopen fd) (λ d. dies)
          (λ file. with_policy_path-Keeps _ _ (checked host s)))

pub minijail_set_seccomp_filters-Keeps :
    (host : Host) (filter : List Instr) (j : Jail)
    → Sound j
    → Keeps j (minijail_set_seccomp_filters host filter j)
unfolding minijail_set_seccomp_filters
minijail_set_seccomp_filters-Keeps host filter j s =
    Keeps-if (not (seccomp_should_use_filters host j).0) (λ e. sound (checked host s).parts)
      (λ e.
        Keeps-if (seccomp_is_logging_allowed host (seccomp_should_use_filters host j).1) (λ d. dies)
          (λ d. sound (internal filter (checked host s)).parts))
