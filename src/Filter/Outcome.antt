-- ===== src/Filter/Outcome.antt =====
-- What a function of syscall_filter.c can do: return a value, return -1 or NULL, or end the
-- process by `die` or by a write through NULL. On -1 or NULL the caller frees all that was built. Warnings are not modelled,
-- and allocations succeed.
use minijail.Base.{◌≡◌, refl}

pub data Outcome {ℓ} (A : Type ℓ) : Type ℓ where
  done : A → Outcome A
  fail die : Outcome A

infixl 5 ◌>>=◌
abbrev pub ◌>>=◌ {ℓ κ} : {A : Type ℓ} {B : Type κ} → Outcome A → (A → Outcome B) → Outcome B
done a >>= f = f a
fail >>= f = fail
die >>= f = die

-- The steps of a chain that returns a value.
pub >>=-eq-done {ℓ κ} :
    {A : Type ℓ} {B : Type κ} {b : B} (first : Outcome A) (next : A → Outcome B)
    → (first >>= next) ≡ done b
    → (a : A) × (next a ≡ done b) × (first ≡ done a)
>>=-eq-done (done a) next h = (a, h, refl)
>>=-eq-done fail next h = cc
>>=-eq-done die next h = cc

pub done_inj {ℓ} : {A : Type ℓ} {a b : A} → done a ≡ done b → a ≡ b
done_inj e = cc
