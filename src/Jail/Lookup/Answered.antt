-- ===== src/Jail/Lookup/Answered.antt =====
-- What a lookup of a user or a group says about the C library, and that it comes to an end.
use minijail.Base.{ℕ, ◌*◌, ◌<◌, ◌≡◌}
use minijail.Jail.Answer.{Entry, too_small, missing, error, entry}
use minijail.Jail.Errno
use minijail.Jail.Lookup.{Lookup, found, failed, max_entry_size}

-- A result that some size of the buffer gave, or the largest size was too small.
pub data Answered {ℓ} {A : Type ℓ} (get : ℕ → Entry A) : Lookup A → Type ℓ where
  was_found : (size : ℕ) (a : A) → get size ≡ entry a → Answered get (found a)
  was_missing : (size : ℕ) → get size ≡ missing → Answered get (failed Errno.enoent)
  was_error : (size e : ℕ) → get size ≡ error e → Answered get (failed e)
  stayed_small :
      (size : ℕ)
      → get size ≡ too_small
      → max_entry_size < 2 * size
      → Answered get (failed Errno.erange)
