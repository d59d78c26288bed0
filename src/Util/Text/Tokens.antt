-- ===== src/Util/Text/Tokens.antt =====
-- `tokenize` cuts a string at the first occurrence of the delimiter.
use mathlib.Core.Bool.{false≢true}
use mathlib.Core.Option
use minijail.Base.{
  ℕ, zero, suc, ◌<◌, true, false, List, [], ◌∷◌, ◌++◌, Option, none, some, length, length-append,
  drop, Bytes, starts_with, ◌≡◌, ◌≢◌, refl, ap, sym, ◌∙◌, arith, Bool-cases, Option-cases, inl, inr,
}
use minijail.Util.Text.{strstr, tokenize, tokens, tokenize_all}

starts_with-drop :
    (delim s : Bytes) → starts_with delim s ≡ true → s ≡ delim ++ drop (length delim) s
unfolding starts_with
starts_with-drop [] s h = refl
starts_with-drop (x ∷ delim) [] h = absurd (cc h)
starts_with-drop (x ∷ delim) (y ∷ s) h = ground (arith, starts_with-drop delim s)

-- What a search for `delim` in `s` finds: the first place where `delim` stands.
pub record Cut (delim s before behind : Bytes) : Type 0 where
  pub whole : s ≡ before ++ (delim ++ behind)
  pub first : (k : ℕ) → k < length before → starts_with delim (drop k s) ≡ false

Cut-here : (delim s : Bytes) → starts_with delim s ≡ true → Cut delim s [] (drop (length delim) s)
Cut-here delim s h = record { whole = starts_with-drop delim s h; first = λ k lt. elim lt [ ] }

Cut-later :
    (c : ℕ) (delim s before behind : Bytes)
    → starts_with delim (c ∷ s) ≡ false
    → Cut delim s before behind
    → Cut delim (c ∷ s) (c ∷ before) behind
Cut-later c delim s before behind h cut = record { whole = ap (◌∷◌ c) cut.whole; first = first }
  where
    first : (k : ℕ) → k < length (c ∷ before) → starts_with delim (drop k (c ∷ s)) ≡ false
    first zero lt = h
    first (suc k) lt = cut.first k (omega arith)

-- Both results of the search: the first place where `delim` stands, or that it stands nowhere.
abbrev pub Searched : Bytes → Bytes → Option (Bytes × Bytes) → Type 0
Searched delim s (some (before, behind)) = Cut delim s before behind
Searched delim s none = (k : ℕ) → k < length s → starts_with delim (drop k s) ≡ false

Searched-cons :
    (c : ℕ) (delim s : Bytes) (o : Option (Bytes × Bytes))
    → starts_with delim (c ∷ s) ≡ false
    → Searched delim s o
    → Searched delim (c ∷ s) (Option.map (λ r. (c ∷ r.0, r.1)) o)
Searched-cons c delim s none later h = nowhere
  where
    nowhere : (k : ℕ) → k < suc (length s) → starts_with delim (drop k (c ∷ s)) ≡ false
    nowhere zero lt = later
    nowhere (suc k) lt = h k (omega arith)
Searched-cons c delim s (some (before, behind)) later cut =
    Cut-later c delim s before behind later cut

pub strstr-Searched : (delim s : Bytes) → Searched delim s (strstr delim s)
unfolding strstr
strstr-Searched delim [] = λ k lt. elim lt [ ]
strstr-Searched delim (c ∷ s) = elim (Bool-cases (starts_with delim (c ∷ s))) [
  | inl here ↦ rw here (Cut-here delim (c ∷ s) here)
  | inr later ↦ rw later (Searched-cons c delim s _ later (strstr-Searched delim s))
]

starts_with-append :
    (delim s t : Bytes) → starts_with delim s ≡ true → starts_with delim (s ++ t) ≡ true
unfolding starts_with
starts_with-append [] s t h = refl
starts_with-append (x ∷ delim) [] t h = absurd (cc h)
starts_with-append (x ∷ delim) (y ∷ s) t h = ground (arith, starts_with-append delim s t)

drop-append : (k : ℕ) (s t : Bytes) → k < length s → drop k (s ++ t) ≡ drop k s ++ t
drop-append k [] t h = elim h [ ]
drop-append zero (c ∷ s) t h = refl
drop-append (suc k) (c ∷ s) t h = drop-append k s t (omega arith)

-- The delimiter stands nowhere in a token.
abbrev pub Lacks : Bytes → Bytes → Type 0
Lacks delim t = (k : ℕ) → k < length t → starts_with delim (drop k t) ≡ false

Cut-Lacks : (delim s before behind : Bytes) → Cut delim s before behind → Lacks delim before
Cut-Lacks delim s before behind cut k lt = elim (Bool-cases (starts_with delim (drop k before))) [
  | inr no_match ↦ no_match
  | inl match ↦
      let longer = starts_with-append delim (drop k before) (delim ++ behind) match in
      let moved = rw (← drop-append k before (delim ++ behind) lt) at longer in
      absurd (false≢true (sym (cut.first k lt) ∙ rw (← cut.whole) at moved))
]

-- Tokens put together again with the delimiter between them.
abbrev pub join : Bytes → List Bytes → Bytes
join delim [] = []
join delim (t ∷ []) = t
join delim (t ∷ u ∷ r) = t ++ (delim ++ join delim (u ∷ r))

abbrev pub AllLack : Bytes → List Bytes → Type 0
AllLack delim [] = Unit
AllLack delim (t ∷ r) = Lacks delim t × AllLack delim r

join-cons :
    (delim t : Bytes) (r : List Bytes) → r ≢ [] → join delim (t ∷ r) ≡ t ++ (delim ++ join delim r)
join-cons delim t [] h = absurd (h refl)
join-cons delim t (u ∷ r) h = refl

module _ (x : ℕ) (delim s : Bytes) where
  pub tokenize-none : strstr (x ∷ delim) s ≡ none → tokenize (some s) (x ∷ delim) ≡ (some s, none)
  unfolding tokenize
  tokenize-none e = rw (e, tokenize)

  pub tokenize-some :
      (before behind : Bytes)
      → strstr (x ∷ delim) s ≡ some (before, behind)
      → tokenize (some s) (x ∷ delim) ≡ (some before, some behind)
  unfolding tokenize
  tokenize-some before behind e = rw (e, tokenize)

  tokens-last :
      (n : ℕ) → strstr (x ∷ delim) s ≡ none → tokens (suc (suc n)) (some s) (x ∷ delim) ≡ s ∷ []
  unfolding tokens
  tokens-last n e = rw (tokenize-none e, tokens) (rw (tokenize-none e) (unfold tokenize in refl))

  tokens-more :
      (n : ℕ) (before behind : Bytes)
      → strstr (x ∷ delim) s ≡ some (before, behind)
      → tokens (suc n) (some s) (x ∷ delim) ≡ before ∷ tokens n (some behind) (x ∷ delim)
  unfolding tokens
  tokens-more n before behind e =
      rw (tokenize-some before behind e, tokens) (rw (tokenize-some before behind e))

tokens-ne-nil :
    (n : ℕ) (s : Bytes) (x : ℕ) (delim : Bytes) → tokens (suc n) (some s) (x ∷ delim) ≢ []
unfolding tokens tokenize
tokens-ne-nil n s x delim = ground arith

-- With rounds to spare the tokens of a string lack the delimiter, and put together with it they
-- are the string.
tokens-Splits :
    (x : ℕ) (delim : Bytes) (n : ℕ) (s : Bytes)
    → length s < n
    → (join (x ∷ delim) (tokens (suc n) (some s) (x ∷ delim)) ≡ s)
      × AllLack (x ∷ delim) (tokens (suc n) (some s) (x ∷ delim))
tokens-Splits x delim zero s h = elim h [ ]
tokens-Splits x delim (suc n) s h = elim (Option-cases (strstr (x ∷ delim) s)) [
  | inl e ↦ rw (tokens-last x delim s n e) (refl, (rw e at (strstr-Searched (x ∷ delim) s), tt))
  | inr ((before, behind), e) ↦
      let cut : Cut (x ∷ delim) s before behind = rw e at (strstr-Searched (x ∷ delim) s) in
      let shorter : length behind < n = omega (
        arith,
        ap length cut.whole,
        length-append before (x ∷ (delim ++ behind)),
        length-append delim behind,
      ) in
      let (joined, lacks) = tokens-Splits x delim n behind shorter in
      rw (tokens-more x delim s (suc n) before behind e) (
        join-cons (x ∷ delim) before _ (tokens-ne-nil n behind x delim)
            ∙ ap (λ t. before ++ (x ∷ (delim ++ t))) joined
            ∙ sym cut.whole,
        (Cut-Lacks (x ∷ delim) s before behind cut, lacks),
      )
]

-- Cutting a string at a delimiter that is not empty, round after round, as the loops over '|',
-- "||" and "&&" do: no token has the delimiter in it, and the tokens put together with the
-- delimiter between them are the string.
pub tokenize_all-join :
    (x : ℕ) (delim s : Bytes)
    → (join (x ∷ delim) (tokenize_all (some s) (x ∷ delim)) ≡ s)
      × AllLack (x ∷ delim) (tokenize_all (some s) (x ∷ delim))
unfolding tokenize_all
tokenize_all-join x delim s = tokens-Splits x delim (suc (length s)) s (omega arith)
