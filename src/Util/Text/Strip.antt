-- ===== src/Util/Text/Strip.antt =====
-- `strip` takes off blanks at both ends, and newlines at the end.
use minijail.Base.{
  if◌then◌else◌, ℕ, Bool, true, false, [], ◌∷◌, ◌++◌, Bytes, ◌≡◌, refl, ap, ◌∙◌, Bool-cases, inl,
  inr,
}
use minijail.Util.Text.{is_blank, is_blank_or_newline, strip_front, strip_back, strip}

abbrev pub AllAre : (ℕ → Bool) → Bytes → Type 0
AllAre p [] = Unit
AllAre p (c ∷ s) = (p c ≡ true) × AllAre p s

abbrev pub StartsWell : Bytes → Type 0
StartsWell [] = Unit
StartsWell (c ∷ s) = is_blank c ≡ false

abbrev pub EndsWell : Bytes → Type 0
EndsWell [] = Unit
EndsWell (c ∷ []) = is_blank_or_newline c ≡ false
EndsWell (c ∷ d ∷ s) = EndsWell (d ∷ s)

-- `t` is `s` without what may be taken off at its ends, and nothing more may be.
pub record Stripped (s t : Bytes) : Type 0 where
  pub before : Bytes
  pub after : Bytes
  pub whole : s ≡ before ++ (t ++ after)
  pub before_blank : AllAre is_blank before
  pub after_blank : AllAre is_blank_or_newline after
  pub starts : StartsWell t
  pub ends : EndsWell t

strip_front-splits :
    (s : Bytes)
    → (before : Bytes) × (s ≡ before ++ strip_front s)
      × AllAre is_blank before
      × StartsWell (strip_front s)
unfolding strip_front
strip_front-splits [] = ([], refl, tt, tt)
strip_front-splits (c ∷ s) = elim (Bool-cases (is_blank c)) [
  | inl blank ↦
      let (before, whole, blanks, starts) = strip_front-splits s in
      rw blank (c ∷ before, ap (◌∷◌ c) whole, (blank, blanks), starts)
  | inr letter ↦ rw letter ([], refl, tt, letter)
]

-- How the last step of `strip_back` goes, by what it leaves of the rest.
abbrev back_step : ℕ → Bytes → Bytes
back_step c r = elim r [ [] ↦ if is_blank_or_newline c then [] else c ∷ [] | x ∷ r' ↦ c ∷ x ∷ r' ]

abbrev BackSplits : Bytes → Bytes → Type 0
BackSplits s t =
    (after : Bytes) × (s ≡ t ++ after)
    × AllAre is_blank_or_newline after
    × EndsWell t
    × (StartsWell s → StartsWell t)

BackSplits-cons : (c : ℕ) (s t : Bytes) → BackSplits s t → BackSplits (c ∷ s) (back_step c t)
BackSplits-cons c s (x ∷ t) (after, whole, blanks, ends, starts) =
    (after, ap (◌∷◌ c) whole, blanks, ends, λ h. h)
BackSplits-cons c s [] (after, whole, blanks, ends, starts) =
    elim (Bool-cases (is_blank_or_newline c)) [
      | inl blank ↦ rw blank (c ∷ after, ap (◌∷◌ c) whole, (blank, blanks), tt, λ h. tt)
      | inr letter ↦ rw letter (after, ap (◌∷◌ c) whole, blanks, letter, λ h. h)
    ]

strip_back-BackSplits : (s : Bytes) → BackSplits s (strip_back s)
unfolding strip_back
strip_back-BackSplits [] = ([], refl, tt, tt, λ h. h)
strip_back-BackSplits (c ∷ s) = BackSplits-cons c s (strip_back s) (strip_back-BackSplits s)

-- `strip` takes blanks off the front and blanks and newlines off the end, nothing else, and leaves
-- none of them there.
pub strip-Stripped : (s : Bytes) → Stripped s (strip s)
unfolding strip
strip-Stripped s =
    let (before, front, before_blank, starts) = strip_front-splits s in
    let (after, back, after_blank, ends, keeps) = strip_back-BackSplits (strip_front s) in
    record {
      before = before;
      after = after;
      whole = front ∙ ap (λ t. before ++ t) back;
      before_blank = before_blank;
      after_blank = after_blank;
      starts = keeps starts;
      ends = ends;
    }
