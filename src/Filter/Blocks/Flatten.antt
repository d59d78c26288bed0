-- ===== src/Filter/Blocks/Flatten.antt =====
-- `flatten_block_list` puts the instructions of the blocks into the buffer of the program.
use minijail.Base.{
  ℕ, zero, suc, ◌+◌, ◌≤◌, List, [], ◌∷◌, ◌++◌, Option, none, some, if◌then◌else◌, leb, length,
  length-append, set, ◌≡◌, refl, sym, ap, ◌∙◌, arith, append_assoc, Bool-cases, inl, inr,
}
use minijail.Bpf.{Instr}
use minijail.Filter.Blocks.{FilterBlock, blocks, write_instrs, flatten_blocks, flatten_block_list}

-- The instructions of a list of blocks, in order.
abbrev pub concat : List (List Instr) → List Instr
concat [] = []
concat (b ∷ bs) = b ++ concat bs

-- The instructions of all blocks.
abbrev pub code : FilterBlock → List Instr
code head = concat (blocks head)

-- `total_len` counts the instructions of the list.
abbrev pub IsMeasured : FilterBlock → Type 0
IsMeasured head = head.total_len ≡ length (code head)

pub concat-append : (bs cs : List (List Instr)) → concat (bs ++ cs) ≡ concat bs ++ concat cs
concat-append [] cs = refl
concat-append (b ∷ bs) cs = ap (◌++◌ b) (concat-append bs cs) ∙ sym (append_assoc b _ _)

set-append :
    (before : List Instr) (old new : Instr) (behind : List Instr)
    → set (before ++ (old ∷ behind)) (length before) new ≡ before ++ (new ∷ behind)
set-append [] old new behind = refl
set-append (b ∷ before) old new behind = ap (◌∷◌ b) (set-append before old new behind)

-- A block goes over as many old entries, if the cap is not passed.
abbrev written : List Instr → List Instr → List Instr → ℕ → Option (List Instr × ℕ)
written before instrs behind cap =
    if leb (length before + length instrs) cap
    then some (before ++ (instrs ++ behind), length before + length instrs)
    else none

length-snoc : (before : List Instr) (i : Instr) → length (before ++ (i ∷ [])) ≡ length before + 1
length-snoc before i = length-append before (i ∷ [])

written-snoc :
    (i : Instr) (instrs before behind : List Instr) (cap : ℕ)
    → written (before ++ (i ∷ [])) instrs behind cap ≡ written before (i ∷ instrs) behind cap
written-snoc i instrs before behind cap =
    let more : length (before ++ (i ∷ [])) + length instrs ≡ length before + suc (length instrs) =
      omega (arith, length-snoc before i) in
    rw (more, append_assoc before (i ∷ []) (instrs ++ behind)) refl

write_instrs-written :
    (instrs before old behind : List Instr) (cap : ℕ)
    → length old ≡ length instrs
    → length before ≤ cap
    → write_instrs instrs (before ++ (old ++ behind)) (length before) cap
      ≡ written before instrs behind cap
unfolding write_instrs
write_instrs-written [] before [] behind cap h le = ground arith
write_instrs-written [] before (o ∷ old) behind cap h le = absurd (omega arith)
write_instrs-written (i ∷ instrs) before [] behind cap h le = absurd (omega arith)
write_instrs-written (i ∷ instrs) before (o ∷ old) behind cap h le =
    elim (Bool-cases (leb cap (length before))) [
      | inl full ↦ rw full (ground arith)
      | inr room ↦
          let later =
            write_instrs-written instrs (before ++ (i ∷ [])) old behind cap (omega arith)
              (ground (arith, length-snoc before i))
            ∙ written-snoc i instrs before behind cap in
          rw (room, set-append before o i (old ++ behind))
            (rw (length-snoc before i, append_assoc before (i ∷ []) (old ++ behind)) at later)
    ]

-- The first entries of a list that is long enough.
split_at :
    (n : ℕ) (xs : List Instr)
    → n ≤ length xs
    → (front : List Instr) × (back : List Instr) × (length front ≡ n) × (xs ≡ front ++ back)
split_at zero xs h = ([], xs, refl, refl)
split_at (suc n) [] h = absurd (omega arith)
split_at (suc n) (x ∷ xs) h =
    let (front, back, measured, whole) = split_at n xs (omega arith) in
    (x ∷ front, back, ap suc measured, ap (◌∷◌ x) whole)

-- The buffer with the blocks in place of as many old entries behind `before`, if `cap` has room.
abbrev pub flattened : List Instr → List Instr → List Instr → ℕ → Option (List Instr)
flattened before code behind cap =
    if leb (length before + length code) cap then some (before ++ (code ++ behind)) else none

flattened-append :
    (before b code behind : List Instr) (cap : ℕ)
    → flattened (before ++ b) code behind cap ≡ flattened before (b ++ code) behind cap
flattened-append before b code behind cap =
    let same : length (before ++ b) + length code ≡ length before + length (b ++ code) =
      omega (arith, length-append before b, length-append b code) in
    rw (same, append_assoc before b (code ++ behind), append_assoc b code behind) refl

module _ (b : List Instr) (bs : List (List Instr)) (filter : List Instr) (index cap : ℕ) where
  flatten_blocks-some :
      {filter' : List Instr} {index' : ℕ}
      → write_instrs b filter index cap ≡ some (filter', index')
      → flatten_blocks (b ∷ bs) filter index cap ≡ flatten_blocks bs filter' index' cap
  unfolding flatten_blocks
  flatten_blocks-some e = rw (e, flatten_blocks) refl

  flatten_blocks-none :
      write_instrs b filter index cap ≡ none → flatten_blocks (b ∷ bs) filter index cap ≡ none
  unfolding flatten_blocks
  flatten_blocks-none e = rw (e, flatten_blocks) refl

flatten_blocks-flattened :
    (blocks : List (List Instr)) (before old behind : List Instr) (cap : ℕ)
    → length old ≡ length (concat blocks)
    → length before ≤ cap
    → flatten_blocks blocks (before ++ (old ++ behind)) (length before) cap
      ≡ flattened before (concat blocks) behind cap
unfolding flatten_blocks
flatten_blocks-flattened [] before [] behind cap h le = ground arith
flatten_blocks-flattened [] before (o ∷ old) behind cap h le = absurd (omega arith)
flatten_blocks-flattened (b ∷ bs) before old behind cap h le =
    let (front, back, measured, whole) =
      split_at (length b) old (omega (arith, length-append b (concat bs))) in
    let same : before ++ (old ++ behind) ≡ before ++ (front ++ (back ++ behind)) =
      ap (λ t. before ++ (t ++ behind)) whole ∙ ap (◌++◌ before) (append_assoc front back behind) in
    let step =
      ap (λ t. write_instrs b t (length before) cap) same
      ∙ write_instrs-written b before front (back ++ behind) cap measured le in
    elim (Bool-cases (leb (length before + length b) cap)) [
      | inl room ↦
          let later =
            flatten_blocks-flattened bs (before ++ b) back behind cap
              (omega
                (arith, ap length whole, length-append front back, length-append b (concat bs)))
              (ground (arith, length-append before b))
            ∙ flattened-append before b (concat bs) behind cap in
          flatten_blocks-some b bs _ _ cap (step ∙ rw room refl)
          ∙ (rw (length-append before b, append_assoc before b (back ++ behind)) at later)
      | inr full ↦
          flatten_blocks-none b bs _ _ cap (step ∙ rw full refl)
          ∙ ground (arith, length-append b (concat bs))
    ]

-- Flattening a list of blocks at index `length before` of a buffer puts the instructions of all
-- blocks there, in their order, and leaves the entries in front of them and behind them as they
-- are. It fails exactly if they would pass `cap`. The list counts its instructions, that many old
-- entries stand at the index, and the index is at most `cap`.
pub flatten_block_list-flattened :
    (head : FilterBlock) (before old behind : List Instr) (cap : ℕ)
    → IsMeasured head
    → length old ≡ head.total_len
    → length before ≤ cap
    → flatten_block_list head (before ++ (old ++ behind)) (length before) cap
      ≡ flattened before (code head) behind cap
unfolding flatten_block_list
flatten_block_list-flattened head before old behind cap measured h le =
    flatten_blocks-flattened (blocks head) before old behind cap (h ∙ measured) le
