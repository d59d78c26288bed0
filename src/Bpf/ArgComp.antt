-- ===== src/Bpf/ArgComp.antt =====
-- `bpf_arg_comp` of bpf.c: the block for one atom of a policy.
use minijail.Base.{
  ℕ, ◌^◌, ◌<◌, bit_and, Bool, true, false, not, List, [], ◌∷◌, ◌++◌, if◌then◌else◌, ◌==◌, ltb, leb,
  length, ◌≡◌, ◌≢◌, refl, arith, ◌∙◌, append_assoc,
}
use minijail.Bpf.{
  Instr, Op, set_bpf_jump_lbl, bpf_load_arg, bpf_comp_jeq64, bpf_comp_jgt64, bpf_comp_jge64,
  bpf_comp_jset64, bpf_comp_jin, bpf_arg_comp, bpf_arg_comp_len, complement, next, skip,
}
use minijail.Bpf.Machine.{Mode, Data, State, exec, loaded, exec-bpf_load_arg}
use minijail.Bpf.Compare.{Branches, jeq64-Branches, jgt64-Branches, jge64-Branches, jset64-Branches}

abbrev is_valid : Op → Bool
is_valid Op.invalid = false
is_valid _ = true

-- What an operator asks of an argument `a` and a constant `c`, as unsigned 64-bit numbers.
abbrev pub holds : Op → ℕ → ℕ → Bool
holds Op.eq a c = a == c
holds Op.ne a c = not (a == c)
holds Op.lt a c = ltb a c
holds Op.le a c = leb a c
holds Op.gt a c = ltb c a
holds Op.ge a c = leb c a
holds Op.set a c = not (bit_and a c == 0)
holds Op.in_mask a c = bit_and a (complement c) == 0
holds Op.invalid a c = false

module _ (m : Mode) (d : Data) (i : ℕ) (s : State) (c : ℕ) (i_lt : i < 6) (a_lt : d.args i < 2 ^ 64)
    (c_lt : c < 2 ^ 64) where
  -- The comparison of an operator, with the targets that `flip` gives, passes over one instruction
  -- if the operator holds and over none otherwise.
  Selects : Op → List Instr → Type 0
  Selects op comp =
      (rest : List Instr)
      → (acc' : ℕ) × (exec m d (comp ++ rest) 0 (loaded d i s)
          ≡ exec m d rest (if holds op (d.args i) c then skip else next)
              (record (loaded d i s) { acc = acc' }))

  flipped :
      (op : Op) (comp : List Instr) (test : Bool)
      → Branches m d comp (loaded d i s) test next skip
      → not test ≡ holds op (d.args i) c
      → Selects op comp
  unfolding Selects
  flipped op comp true b e rest = rw (← e) (b rest)
  flipped op comp false b e rest = rw (← e) (b rest)

  straight :
      (op : Op) (comp : List Instr) (test : Bool)
      → Branches m d comp (loaded d i s) test skip next
      → test ≡ holds op (d.args i) c
      → Selects op comp
  unfolding Selects
  straight op comp test b e rest = rw (← e) (b rest)

  comparison-Selects :
      (op : Op)
      → op ≢ Op.invalid
      → (comp : List Instr) × (bpf_arg_comp op i c
          ≡ (λ id. bpf_load_arg i ++ (comp ++ (set_bpf_jump_lbl id ∷ []))))
        × Selects op comp
  unfolding bpf_arg_comp bpf_comp_jin
  comparison-Selects Op.eq h = (
    _,
    refl,
    straight Op.eq _ _ (jeq64-Branches m d i s c _ _ a_lt c_lt (omega arith) (omega arith)) refl,
  )
  comparison-Selects Op.ne h = (
    _,
    refl,
    flipped Op.ne _ _ (jeq64-Branches m d i s c _ _ a_lt c_lt (omega arith) (omega arith)) refl,
  )
  comparison-Selects Op.lt h = (
    _,
    refl,
    flipped Op.lt _ _ (jge64-Branches m d i s c _ _ a_lt c_lt (omega arith) (omega arith))
        (ground arith),
  )
  comparison-Selects Op.le h = (
    _,
    refl,
    flipped Op.le _ _ (jgt64-Branches m d i s c _ _ a_lt c_lt (omega arith) (omega arith))
        (ground arith),
  )
  comparison-Selects Op.gt h = (
    _,
    refl,
    straight Op.gt _ _ (jgt64-Branches m d i s c _ _ a_lt c_lt (omega arith) (omega arith)) refl,
  )
  comparison-Selects Op.ge h = (
    _,
    refl,
    straight Op.ge _ _ (jge64-Branches m d i s c _ _ a_lt c_lt (omega arith) (omega arith)) refl,
  )
  comparison-Selects Op.set h = (
    bpf_comp_jset64 c skip next,
    refl,
    straight Op.set _ _ (jset64-Branches m d i s c _ _ a_lt c_lt (omega arith) (omega arith)) refl,
  )
  comparison-Selects Op.in_mask h = (
    bpf_comp_jin c skip next,
    refl,
    flipped Op.in_mask _ _
        (jset64-Branches m d i s (complement c) _ _ a_lt (omega arith) (omega arith) (omega arith))
        (ground arith),
  )
  comparison-Selects Op.invalid h = absurd (h refl)

  -- For a valid operator, the block of an atom, put before any `rest`, loads the argument and
  -- passes over its last instruction, the jump to the label, exactly when the operator holds of
  -- the argument and the constant as 64-bit numbers. It faults on no input and returns no verdict.
  -- The argument is one of the six, and it and the constant fit into 64 bits.
  pub bpf_arg_comp-holds :
      (op : Op) (id : ℕ) (rest : List Instr)
      → op ≢ Op.invalid
      → (acc' : ℕ) × (exec m d (bpf_arg_comp op i c id ++ rest) 0 s
          ≡ exec m d
              (set_bpf_jump_lbl id ∷ rest)
              (if holds op (d.args i) c then skip else next)
              (record (loaded d i s) { acc = acc' }))
  unfolding Selects
  bpf_arg_comp-holds op id rest h =
      let (comp, shape, selects) = comparison-Selects op h in
      let (acc', selected) = selects (set_bpf_jump_lbl id ∷ rest) in
      (
        acc',
        rw shape (rw append_assoc (exec-bpf_load_arg m d i _ s i_lt ∙ rw append_assoc selected)),
      )

-- The block has the length that `bpf_arg_comp_len` allocates for it, for every constant of
-- 64 bits and operator, and the invalid operator has no block.
pub length-bpf_arg_comp :
    (op : Op) (i c id : ℕ)
    → c < 2 ^ 64
    → length (bpf_arg_comp op i c id) ≡ (if is_valid op then bpf_arg_comp_len op c else 0)
unfolding bpf_arg_comp bpf_load_arg bpf_comp_jeq64 bpf_comp_jgt64 bpf_comp_jge64 bpf_comp_jset64
    bpf_comp_jin
length-bpf_arg_comp Op.eq i c id h = refl
length-bpf_arg_comp Op.lt i c id h = ground arith
length-bpf_arg_comp Op.le i c id h = ground arith
length-bpf_arg_comp Op.gt i c id h = ground arith
length-bpf_arg_comp Op.ge i c id h = ground arith
length-bpf_arg_comp _ i c id h = refl
