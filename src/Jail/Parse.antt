-- ===== src/Jail/Parse.antt =====
-- What reading a serialised jail can give.
use minijail.Base.{◌≡◌}

-- A value, -EINVAL, or behaviour that C does not define: a copy from NULL, or a write behind an
-- array.
pub data Parse {ℓ} (A : Type ℓ) : Type ℓ where
  parsed : A → Parse A
  invalid undefined : Parse A

infixl 5 ◌>>=◌
abbrev pub ◌>>=◌ {ℓ κ} : {A : Type ℓ} {B : Type κ} → Parse A → (A → Parse B) → Parse B
parsed a >>= f = f a
invalid >>= f = invalid
undefined >>= f = undefined

-- A step that is known.
pub >>=-step {ℓ κ} :
    {A : Type ℓ} {B : Type κ} {first : Parse A} {a : A} {result : Parse B} (next : A → Parse B)
    → first ≡ parsed a
    → next a ≡ result
    → (first >>= next) ≡ result
>>=-step next e h = rw e h
