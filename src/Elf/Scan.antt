-- ===== src/Elf/Scan.antt =====
-- What the loop over the program headers of an ELF file finds.
use minijail.Base.{
  ℕ, zero, suc, ◌+◌, ◌-◌, ◌*◌, ◌≤◌, ◌<◌, [], ◌∷◌, length, drop, true, false, leb, ◌==◌, Bytes, ◌≡◌,
  ◌≢◌, refl, sym, ap, ◌∙◌, arith, Bool-cases, inl, inr, ==_iff,
}
use minijail.Elf.{ElfType, elf_error, elf_static, elf_dynamic, p_type, pt_interp, scan_headers}

-- The program header `i` of those that stand in `rest`, one behind the other.
abbrev pub header_at : ℕ → ℕ → Bytes → Bytes
header_at size i rest = drop (i * size) rest

-- None of the first `n` headers that are whole is PT_INTERP.
abbrev pub HasNoInterp : ℕ → ℕ → Bytes → Type 0
HasNoInterp size n rest =
    (i : ℕ) → i < n → suc i * size ≤ length rest → p_type (header_at size i rest) ≢ pt_interp

-- Dynamic: one of the headers is whole and PT_INTERP. Static: all are whole and none is. Error:
-- some are not whole, and none of the whole ones is.
abbrev pub IsScanned : ℕ → ℕ → Bytes → ElfType → Type 0
IsScanned size n rest elf_dynamic =
    (i : ℕ) × (i < n) × (suc i * size ≤ length rest) × (p_type (header_at size i rest) ≡ pt_interp)
IsScanned size n rest elf_static = (n * size ≤ length rest) × HasNoInterp size n rest
IsScanned size n rest elf_error = (length rest < n * size) × HasNoInterp size n rest

suc_mul : (i size : ℕ) → suc i * size ≡ size + i * size
suc_mul i size = omega arith

zero_mul : (size : ℕ) → 0 * size ≡ 0
zero_mul size = omega arith

leb-true : (a b : ℕ) → leb a b ≡ true → a ≤ b
leb-true a b e = ground (arith, e)

leb-false : (a b : ℕ) → leb a b ≡ false → b < a
leb-false a b e = ground (arith, e)

true_ne_false : true ≢ false
true_ne_false e = cc

nothing_whole : (size n : ℕ) (rest : Bytes) → length rest < size → HasNoInterp size (suc n) rest
nothing_whole size n rest short i lt room e = absurd (omega (arith, short, room, suc_mul i size))

drop-nil : (n : ℕ) → drop {A = ℕ} n [] ≡ []
drop-nil zero = refl
drop-nil (suc n) = refl

zero_add : (n : ℕ) → 0 + n ≡ n
zero_add n = omega arith

suc_add : (a b : ℕ) → suc a + b ≡ suc (a + b)
suc_add a b = omega arith

drop-add : (a b : ℕ) (s : Bytes) → drop (a + b) s ≡ drop b (drop a s)
drop-add zero b s = ap (λ (n : ℕ). drop n s) (zero_add b)
drop-add (suc a) b [] = drop-nil (suc a + b) ∙ sym (drop-nil b)
drop-add (suc a) b (c ∷ s) = ap (λ (n : ℕ). drop n (c ∷ s)) (suc_add a b) ∙ drop-add a b s

length-drop : (a : ℕ) (s : Bytes) → length (drop a s) ≡ length s - a
length-drop zero s = omega arith
length-drop (suc a) [] = omega arith
length-drop (suc a) (c ∷ s) = omega (arith, length-drop a s)

header_at-suc :
    (size i : ℕ) (rest : Bytes) → header_at size (suc i) rest ≡ header_at size i (drop size rest)
header_at-suc size i rest =
    ap (λ (n : ℕ). drop n rest) (suc_mul i size) ∙ drop-add size (i * size) rest

header_at-zero : (size : ℕ) (rest : Bytes) → header_at size 0 rest ≡ rest
header_at-zero size rest = ap (λ (n : ℕ). drop n rest) (zero_mul size)

module _ (size n : ℕ) (rest : Bytes) (whole : size ≤ length rest)
    (other : p_type rest ≢ pt_interp) where
  HasNoInterp-cons : HasNoInterp size n (drop size rest) → HasNoInterp size (suc n) rest
  HasNoInterp-cons later zero lt room e = other (sym (ap p_type (header_at-zero size rest)) ∙ e)
  HasNoInterp-cons later (suc i) lt room e =
      let shorter = length-drop size rest in
      later i (omega arith) (omega (arith, shorter, room, suc_mul i size, suc_mul (suc i) size))
        (sym (ap p_type (header_at-suc size i rest)) ∙ e)

  IsScanned-cons :
      (r : ElfType) → IsScanned size n (drop size rest) r → IsScanned size (suc n) rest r
  IsScanned-cons elf_dynamic (i, lt, room, e) =
      let shorter = length-drop size rest in
      (
        suc i,
        omega arith,
        omega (arith, shorter, room, whole, suc_mul i size, suc_mul (suc i) size),
        ap p_type (header_at-suc size i rest) ∙ e,
      )
  IsScanned-cons elf_static (room, later) =
      let shorter = length-drop size rest in
      (omega (arith, shorter, room, whole, suc_mul n size), HasNoInterp-cons later)
  IsScanned-cons elf_error (short, later) =
      let shorter = length-drop size rest in
      (omega (arith, shorter, short, whole, suc_mul n size), HasNoInterp-cons later)

-- The loop over program headers gives ELFDYNAMIC exactly where one of them is whole and PT_INTERP,
-- ELFSTATIC where all are whole and none is, and ELFERROR otherwise.
pub scan_headers-IsScanned :
    (size n : ℕ) (rest : Bytes) → IsScanned size n rest (scan_headers size n rest)
unfolding scan_headers
scan_headers-IsScanned size zero rest = (omega (arith, zero_mul size), λ i lt. elim lt [ ])
scan_headers-IsScanned size (suc n) rest = elim (Bool-cases (leb size (length rest))) [
  | inr short ↦ rw short (
    omega (arith, suc_mul n size, leb-false size (length rest) short),
    nothing_whole size n rest (leb-false size (length rest) short),
  )
  | inl whole ↦ elim (Bool-cases (p_type rest == pt_interp)) [
    | inl interp ↦
        let first = (==_iff (p_type rest) pt_interp).0 interp in
        rw (whole, interp)
          (
            0,
            omega arith,
            ground (arith, suc_mul 0 size, zero_mul size),
            ap p_type (header_at-zero size rest) ∙ first,
          )
    | inr other ↦
        rw (whole, other)
          (IsScanned-cons size n rest (leb-true size (length rest) whole)
            (λ e. absurd (true_ne_false (sym ((==_iff (p_type rest) pt_interp).1 e) ∙ other))) _
            (scan_headers-IsScanned size n (drop size rest)))
  ]
]
