-- ===== src/Jail/Lookup.antt =====
-- `lookup_user` and `lookup_group` of system.c.
pub mod Answered
use minijail.Base.{
  ℕ, zero, suc, ◌*◌, ◌<◌, ◌≤◌, Option, none, some, Bytes, if◌then◌else◌, leb, ◌≡◌, refl, arith, ◌⊎◌,
  inl, inr,
}
use minijail.Jail.Answer.{Entry, too_small, missing, error, entry, Host}
use minijail.Jail.Errno

-- An error code, the value, or no more fuel.
pub data Lookup {ℓ} (A : Type ℓ) : Type ℓ where
  found : A → Lookup A
  failed : ℕ → Lookup A
  out_of_fuel : Lookup A

-- MAX_PWENT_SZ and MAX_GRENT_SZ
abbrev pub max_entry_size : ℕ
max_entry_size = 1048576

-- `while (sz <= MAX_PWENT_SZ)` behind a body that found the buffer too small.
unfoldable pub retry {ℓ} : {A : Type ℓ} → (ℕ → Entry A) → ℕ → ℕ → Lookup A
retry get zero sz = out_of_fuel
retry get (suc fuel) sz = elim (get sz) [
  | too_small ↦ if leb (2 * sz) max_entry_size then retry get fuel (2 * sz) else failed Errno.erange
  | missing ↦ failed Errno.enoent
  | error e ↦ failed e
  | entry a ↦ found a
]

-- `sz` at the start
unfoldable pub first_size : Option ℕ → ℕ
first_size none = 65536
first_size (some sz) = sz

-- The buffer grows 21 times at most if it has any size at first.
abbrev pub lookup_fuel : ℕ
lookup_fuel = 22

unfoldable pub lookup_user : Host → Bytes → Lookup (ℕ × ℕ)
unfolding retry first_size
lookup_user host user =
    retry (λ sz. host.getpwnam_r sz user) lookup_fuel (first_size host.getpw_r_size)

unfoldable pub lookup_group : Host → Bytes → Lookup ℕ
unfolding retry first_size
lookup_group host group =
    retry (λ sz. host.getgrnam_r sz group) lookup_fuel (first_size host.getgr_r_size)
