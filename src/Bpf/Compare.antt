-- ===== src/Bpf/Compare.antt =====
-- The 64-bit comparisons of bpf.c, made of 32-bit ones, decide the comparison of 64-bit numbers.
use minijail.Base.{
  ℕ, suc, ◌+◌, ◌*◌, ◌%◌, ◌^◌, ◌<◌, ◌≤◌, bit_and, Bool, not, ◌&&◌, ◌||◌, List, [], ◌∷◌, ◌++◌,
  if◌then◌else◌, ◌==◌, ltb, leb, ◌≡◌, arith, ◌∙◌, inl, inr, Bool-cases,
}
use mathlib.Core.Path.{ap₂}
use minijail.Base.Bits.{bit_and-split}
use minijail.Bpf.{
  Instr, set_bpf_stmt, set_bpf_jump, lo_word, hi_word, bpf_comp_jeq64, bpf_comp_jgt32,
  bpf_comp_jeq32, bpf_comp_jgt64, bpf_comp_jge64, bpf_comp_jset64, next, skip_n,
}
use minijail.Bpf.Code
use minijail.Bpf.Machine.{
  Mode, Data, State, exec, loaded, exec-ld_mem, exec-jeq, exec-jgt, exec-jge, exec-jset,
}

module _ (m : Mode) (d : Data) (p : List Instr) (s : State) where
  -- A jump to a known place.
  land : {n k : ℕ} → n ≡ k → exec m d p n s ≡ exec m d p k s
  land e = rw e

  pass_two : (i j : Instr) {n k : ℕ} → n ≡ suc (suc k) → exec m d (i ∷ j ∷ p) n s ≡ exec m d p k s
  unfolding exec
  pass_two i j e = rw e

  pass_three :
      (i j l : Instr) {n k : ℕ}
      → n ≡ suc (suc (suc k))
      → exec m d (i ∷ j ∷ l ∷ p) n s ≡ exec m d p k s
  unfolding exec
  pass_three i j l e = rw e

-- From `s` the block `p`, put before any `rest`, passes over `jt` further instructions if `test`
-- holds and over `jf` otherwise; at most the accumulator has changed.
abbrev pub Branches : Mode → Data → List Instr → State → Bool → ℕ → ℕ → Type 0
Branches m d p s test jt jf =
    (rest : List Instr)
    → (acc' : ℕ) × (exec m d (p ++ rest) 0 s
        ≡ exec m d rest (if test then jt else jf) (record s { acc = acc' }))

abbrev ld_lo : Instr
ld_lo = set_bpf_stmt Code.ld_mem 0

-- `high_first hi jt jf`: the jumps on the high halves that `bpf_comp_jgt64` and `bpf_comp_jge64`
-- begin with.
abbrev high_first : ℕ → ℕ → ℕ → List Instr
high_first hi jt jf =
    if hi == 0
    then bpf_comp_jgt32 hi (skip_n 2 + jt) next
    else bpf_comp_jgt32 hi (skip_n 3 + jt) next ++ bpf_comp_jeq32 hi next (skip_n 2 + jf)

module _ (m : Mode) (d : Data) (i : ℕ) (s : State) (c jt jf : ℕ) (a_lt : d.args i < 2 ^ 64)
    (c_lt : c < 2 ^ 64) (jt_le : jt ≤ 252) (jf_le : jf ≤ 252) where
  abbrev a : ℕ
  a = d.args i

  abbrev from : State
  from = loaded d i s

  abbrev lo_state : State
  lo_state = record from { acc = lo_word a }

  abbrev hi_c : ℕ
  hi_c = lo_word (hi_word c)

  pub jeq64-Branches : Branches m d (bpf_comp_jeq64 c jt jf) from (a == c) jt jf
  unfolding bpf_comp_jeq64
  jeq64-Branches rest =
      let low = set_bpf_jump Code.jeq (lo_word (lo_word c)) jt jf in
      let first = exec-jeq m d (ld_lo ∷ low ∷ rest) from hi_c next (skip_n 2 + jf) in
      elim (Bool-cases (hi_word a == hi_c % 2 ^ 32)) [
        | inl e ↦ (
          lo_word a,
          first
              ∙ rw e (exec-ld_mem m d (low ∷ rest) from 0)
              ∙ exec-jeq m d rest lo_state (lo_word (lo_word c)) jt jf
              ∙ land m d rest lo_state (ground arith),
        )
        | inr e ↦ (hi_word a, first ∙ rw e (pass_two m d rest from ld_lo low (ground arith)))
      ]

  module _ (low : Instr) (test low_test : Bool) (rest : List Instr)
      (final : exec m d (low ∷ rest) 0 lo_state
        ≡ exec m d rest (if low_test then jt else jf) lo_state)
      (h : test ≡ (ltb (hi_word c) (hi_word a) || hi_word a == hi_word c && low_test)) where
    abbrev Decided : List Instr → Type 0
    Decided p =
        (acc' : ℕ) × (exec m d (p ++ rest) 0 from
          ≡ exec m d rest (if test then jt else jf) (record from { acc = acc' }))

    -- With a zero high half in the constant one jump is enough.
    short-Decided :
        hi_word c ≡ 0
        → Decided (bpf_comp_jgt32 (hi_word c) (skip_n 2 + jt) next ++ (ld_lo ∷ low ∷ []))
    short-Decided z =
        let first = exec-jgt m d (ld_lo ∷ low ∷ rest) from hi_c (skip_n 2 + jt) next in
        elim (Bool-cases (ltb (hi_c % 2 ^ 32) (hi_word a))) [
          | inl e ↦ (hi_word a, first ∙ rw e (pass_two m d rest from ld_lo low (ground arith)))
          | inr e ↦ (
            lo_word a,
            first
                ∙ rw e (exec-ld_mem m d (low ∷ rest) from 0)
                ∙ final
                ∙ land m d rest lo_state (ground arith),
          )
        ]

    long-Decided : Decided (
        (bpf_comp_jgt32 (hi_word c) (skip_n 3 + jt) next
          ++ bpf_comp_jeq32 (hi_word c) next (skip_n 2 + jf))
        ++ (ld_lo ∷ low ∷ []))
    long-Decided =
        let equal = set_bpf_jump Code.jeq hi_c next (skip_n 2 + jf) in
        let first = exec-jgt m d (equal ∷ ld_lo ∷ low ∷ rest) from hi_c (skip_n 3 + jt) next in
        let second = exec-jeq m d (ld_lo ∷ low ∷ rest) from hi_c next (skip_n 2 + jf) in
        elim (Bool-cases (ltb (hi_c % 2 ^ 32) (hi_word a))) [
          | inl e ↦
              (hi_word a, first ∙ rw e (pass_three m d rest from equal ld_lo low (ground arith)))
          | inr e ↦ elim (Bool-cases (hi_word a == hi_c % 2 ^ 32)) [
            | inl f ↦ (
              lo_word a,
              first
                  ∙ rw e (
                      second
                      ∙ rw f (exec-ld_mem m d (low ∷ rest) from 0)
                      ∙ final
                      ∙ land m d rest lo_state (ground arith)),
            )
            | inr f ↦ (
              hi_word a,
              first ∙ rw e (second ∙ rw f (pass_two m d rest from ld_lo low (ground arith))),
            )
          ]
        ]

    -- The high halves decide unless they are equal; then the jump `low` on the low halves does.
    high_first-Decided : Decided (high_first (hi_word c) jt jf ++ (ld_lo ∷ low ∷ []))
    high_first-Decided = elim (Bool-cases (hi_word c == 0)) [
      | inl z ↦ rw z (short-Decided (ground arith))
      | inr n ↦ rw n long-Decided
    ]

  pub jgt64-Branches : Branches m d (bpf_comp_jgt64 c jt jf) from (ltb c a) jt jf
  unfolding bpf_comp_jgt64
  jgt64-Branches rest =
      let lo_c = lo_word (lo_word c) in
      high_first-Decided (set_bpf_jump Code.jgt lo_c jt jf) (ltb c a) (ltb (lo_word c) (lo_word a))
        rest (exec-jgt m d rest lo_state lo_c jt jf ∙ land m d rest lo_state (ground arith))
        (ground arith)

  pub jge64-Branches : Branches m d (bpf_comp_jge64 c jt jf) from (leb c a) jt jf
  unfolding bpf_comp_jge64
  jge64-Branches rest =
      let lo_c = lo_word (lo_word c) in
      high_first-Decided (set_bpf_jump Code.jge lo_c jt jf) (leb c a) (leb (lo_word c) (lo_word a))
        rest (exec-jge m d rest lo_state lo_c jt jf ∙ land m d rest lo_state (ground arith))
        (ground arith)

  bit_and-words :
      bit_and a c ≡ bit_and (hi_word a) (hi_word c) * 2 ^ 32 + bit_and (lo_word a) (lo_word c)
  bit_and-words =
      ap₂ bit_and {x = a} {y = hi_word a * 2 ^ 32 + lo_word a} (omega arith) (omega arith)
      ∙ bit_and-split 32 (hi_word a) (hi_word c) (lo_word a) (lo_word c) (omega arith) (omega arith)

  -- A bit is common to two numbers if it is common to their high halves or to their low ones.
  bit_and-halves : (bit_and a c == 0) ≡ (
      bit_and (hi_word a) (hi_c % 2 ^ 32) == 0
      && bit_and (lo_word a) (lo_word (lo_word c) % 2 ^ 32) == 0)
  bit_and-halves =
      let high : hi_c % 2 ^ 32 ≡ hi_word c = omega arith in
      let low : lo_word (lo_word c) % 2 ^ 32 ≡ lo_word c = omega arith in
      rw (high, low) (ground (arith, bit_and-words))

  pub jset64-Branches : Branches m d (bpf_comp_jset64 c jt jf) from (not (bit_and a c == 0)) jt jf
  unfolding bpf_comp_jset64
  jset64-Branches rest =
      let low = set_bpf_jump Code.jset (lo_word (lo_word c)) jt jf in
      let first = exec-jset m d (ld_lo ∷ low ∷ rest) from hi_c (skip_n 2 + jt) next in
      elim (Bool-cases (bit_and (hi_word a) (hi_c % 2 ^ 32) == 0)) [
        | inl e ↦ (
          lo_word a,
          first
              ∙ rw e (exec-ld_mem m d (low ∷ rest) from 0)
              ∙ exec-jset m d rest lo_state (lo_word (lo_word c)) jt jf
              ∙ land m d rest lo_state (ground (arith, bit_and-halves)),
        )
        | inr e ↦ (
          hi_word a,
          first ∙ rw e (pass_two m d rest from ld_lo low (ground (arith, bit_and-halves))),
        )
      ]
