-- ===== src/Tests/JailBytes.antt =====
-- The theorems on the serialised form of a jail at concrete inputs.
use minijail.Base.{[], ◌∷◌, Bytes, ◌≡◌, refl, arith, length, take, ltb}
use minijail.Jail.State.{Jail, minijail_new}
use minijail.Jail.Parse.{parsed}
use minijail.Jail.Wire.{minijail_size, minijail_marshal}
use minijail.Jail.Wire.Encoding.{encoding, minijail_marshal-fits}
use minijail.Jail.Unmarshal.{minijail_copy_jail}
use minijail.Jail.RoundTrip.Whole.{
  stale, unmarshalled, Resembles, IsEncodable, minijail_copy_jail-copies,
}
use minijail.Tests.JailCalls.{quiet_host, with_bind, with_bind-IsSound}

-- A structure of three bytes.
abbrev three_bytes : Jail → Bytes
three_bytes j = 1 ∷ 2 ∷ 3 ∷ []

-- The copy is one of the jail with a mount, whose pointers say nothing.
abbrev copied : Bytes → Jail
copied bytes = stale minijail_new with_bind

nothing_stale : Resembles minijail_new with_bind
unfolding minijail_new
nothing_stale = record {
  user_shape = tt;
  gids_shape = tt;
  chrootdir_shape = tt;
  hostname_shape = tt;
  table_shape = tt;
  policy_shape = tt;
  cgroups_shape = refl;
}

with_bind-IsEncodable : IsEncodable with_bind
unfolding minijail_new
with_bind-IsEncodable = record {
  user_fits = tt;
  gids_fit = tt;
  chrootdir_fits = tt;
  hostname_fits = tt;
  table_fits = tt;
  program_fits = refl;
  mounts_fit = ground arith;
  cgroups_fit = tt;
  rules_fit = tt;
  fd_fits = tt;
  policy_fits = tt;
}

minijail_copy_jail-copies_example :
    minijail_copy_jail 3 copied three_bytes quiet_host with_bind
    ≡ parsed (unmarshalled quiet_host with_bind)
minijail_copy_jail-copies_example =
    minijail_copy_jail-copies 3 three_bytes copied quiet_host minijail_new with_bind refl refl
      nothing_stale (omega arith) with_bind-IsSound with_bind-IsEncodable

minijail_marshal-fits_example :
    (minijail_size three_bytes with_bind ≡ length (encoding three_bytes with_bind))
    × ((minijail_marshal three_bytes with_bind 5).0 ≡ take 5 (encoding three_bytes with_bind))
    × ((minijail_marshal three_bytes with_bind 5).1 ≡ ltb 5 (minijail_size three_bytes with_bind))
minijail_marshal-fits_example = minijail_marshal-fits three_bytes with_bind 5
