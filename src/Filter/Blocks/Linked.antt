-- ===== src/Filter/Blocks/Linked.antt =====
-- Lists of blocks whose pointers are right: `append_filter_block` and `extend_filter_block_list`
-- keep them so.
use minijail.Base.{
  ℕ, ◌+◌, Bool, true, false, List, [], ◌∷◌, ◌++◌, Option, none, some, if◌then◌else◌, length,
  length-append, ◌≡◌, ◌≢◌, refl, sym, ap, ◌∙◌, arith, append-nil,
}
use mathlib.Core.Path.{subst}
use minijail.Bpf.{Instr}
use minijail.Filter.Blocks.{
  FilterBlock, new_filter_block, blocks, instrs_or_none, append_behind, append_filter_block,
  extend_filter_block_list,
}
use minijail.Filter.Blocks.Flatten.{code, concat, concat-append, IsMeasured}
use minijail.Filter.Outcome.{Outcome, done, fail, die}

-- `last` is NULL exactly where `next` is.
abbrev pub HasLast : List (List Instr) → Bool → Type 0
HasLast [] has_last = has_last ≡ false
HasLast (b ∷ bs) has_last = has_last ≡ true

-- The head has instructions, `last` is the last block behind it, and `total_len` counts the
-- instructions of all blocks.
pub record IsLinked (head : FilterBlock) : Type 0 where
  pub filled : head.instrs ≢ none
  pub last : HasLast head.next head.has_last
  pub measured : IsMeasured head

-- A list of at least two blocks, with the instructions of `front` and those of the new block
-- behind them.
abbrev pub Appended : List Instr → List Instr → Outcome FilterBlock → Type 0
Appended front instrs (done head) = IsLinked head × (head.next ≢ []) × (code head ≡ front ++ instrs)
Appended front instrs fail = ⊥
Appended front instrs die = ⊥

some_ne_none : (b : List Instr) → some b ≢ none
some_ne_none b e = cc

code-snoc :
    (bs : List (List Instr)) (instrs : List Instr)
    → concat (bs ++ (instrs ∷ [])) ≡ concat bs ++ instrs
code-snoc bs instrs = concat-append bs (instrs ∷ []) ∙ ap (◌++◌ (concat bs)) (append-nil instrs)

snoc_ne_nil : (bs : List (List Instr)) (b : List Instr) → bs ++ (b ∷ []) ≢ []
snoc_ne_nil [] b e = cc
snoc_ne_nil (c ∷ bs) b e = cc

HasLast-snoc : (bs : List (List Instr)) (b : List Instr) → HasLast (bs ++ (b ∷ [])) true
HasLast-snoc [] b = refl
HasLast-snoc (c ∷ bs) b = refl

behind :
    (first : List Instr) (bs : List (List Instr)) (total : ℕ) (instrs : List Instr)
    → total ≡ length (concat (first ∷ bs))
    → Appended (concat (first ∷ bs)) instrs (
        done (record {
          instrs = some first;
          next = bs ++ (instrs ∷ []);
          has_last = true;
          total_len = total + length instrs;
        }))
behind first bs total instrs m =
    let whole = code-snoc (first ∷ bs) instrs in
    (
      record {
        filled = some_ne_none first;
        last = HasLast-snoc bs instrs;
        measured =
            ap (λ (n : ℕ). n + length instrs) m
            ∙ sym (length-append (concat (first ∷ bs)) instrs)
            ∙ sym (ap length whole);
      },
      snoc_ne_nil bs instrs,
      whole,
    )

-- A block behind a list whose pointers are right.
pub append_filter_block-Appended :
    (head : FilterBlock) (instrs : List Instr)
    → IsLinked head
    → Appended (code head) instrs (append_filter_block head instrs)
unfolding append_filter_block append_behind
append_filter_block-Appended head instrs linked =
    go head.instrs head.next head.has_last head.total_len linked.filled linked.last linked.measured
  where
    go :
        (own : Option (List Instr)) (bs : List (List Instr)) (last : Bool) (total : ℕ)
        → own ≢ none
        → HasLast bs last
        → total ≡ length (concat (instrs_or_none own ∷ bs))
        → Appended (concat (instrs_or_none own ∷ bs)) instrs (
            append_filter_block
              (record { instrs = own; next = bs; has_last = last; total_len = total })
              instrs)
    go none bs last total filled l m = absurd (filled refl)
    go (some first) [] last total filled l m = behind first [] total instrs m
    go (some first) (b ∷ bs) true total filled l m = behind first (b ∷ bs) total instrs m
    go (some first) (b ∷ bs) false total filled l m = absurd (cc l)

-- The first block of a new list.
abbrev pub first_block : List Instr → FilterBlock
first_block instrs = record {
  instrs = some instrs;
  next = [];
  has_last = false;
  total_len = length instrs;
}

pub append_filter_block-new :
    (instrs : List Instr) → append_filter_block new_filter_block instrs ≡ done (first_block instrs)
unfolding append_filter_block
append_filter_block-new instrs = refl

pub code-first_block : (instrs : List Instr) → code (first_block instrs) ≡ instrs
code-first_block instrs = append-nil instrs

pub first_block-IsLinked : (instrs : List Instr) → IsLinked (first_block instrs)
first_block-IsLinked instrs = record {
  filled = some_ne_none instrs;
  last = refl;
  measured = sym (ap length (code-first_block instrs));
}

kept_next :
    (bs : List (List Instr)) (last : Bool) → HasLast bs last → (if last then bs else []) ≡ bs
kept_next [] true h = refl
kept_next [] false h = refl
kept_next (b ∷ bs) true h = refl
kept_next (b ∷ bs) false h = absurd (cc h)

last_set : (bs : List (List Instr)) (last : Bool) → bs ≢ [] → HasLast bs last → last ≡ true
last_set [] last some_there h = absurd (some_there refl)
last_set (b ∷ bs) last some_there h = h

HasLast-append : (bs cs : List (List Instr)) (c : List Instr) → HasLast (bs ++ (c ∷ cs)) true
HasLast-append [] cs c = refl
HasLast-append (b ∷ bs) cs c = refl

extend-code :
    (list another : FilterBlock)
    → IsLinked list
    → code (extend_filter_block_list list another) ≡ code list ++ code another
unfolding extend_filter_block_list
extend-code list another l =
    ap (λ (bs : List (List Instr)). concat (instrs_or_none list.instrs ∷ (bs ++ blocks another)))
      (kept_next list.next list.has_last l.last)
    ∙ concat-append (blocks list) (blocks another)

extend-IsLinked :
    (list another : FilterBlock)
    → IsLinked list
    → IsLinked another
    → another.next ≢ []
    → IsLinked (extend_filter_block_list list another)
unfolding extend_filter_block_list
extend-IsLinked list another l a some_there = record {
  filled = l.filled;
  last =
      subst
        (λ (last : Bool).
          HasLast ((if list.has_last then list.next else []) ++ blocks another) last)
        (sym (last_set another.next another.has_last some_there a.last))
        (HasLast-append (if list.has_last then list.next else []) another.next
          (instrs_or_none another.instrs));
  measured = omega (
    arith,
    l.measured,
    a.measured,
    ap length (extend-code list another l),
    length-append (code list) (code another),
  );
}

-- A block appended to a new list is its first one. A block appended to a list whose pointers are
-- right comes last, and no NULL is written through; the pointers are right again, and `total_len`
-- counts all instructions. So it is with a list that is extended by another one, if that one has
-- at least two blocks, and all blocks of both are there in their order. The pointers are right if
-- the head has instructions and `last` is the last block, or NULL where there is no block behind
-- the head.
pub filter_blocks-IsLinked :
    (list another : FilterBlock) (instrs : List Instr)
    → IsLinked list
    → IsLinked another
    → another.next ≢ []
    → (append_filter_block new_filter_block instrs ≡ done (first_block instrs))
      × IsLinked (first_block instrs)
      × Appended (code list) instrs (append_filter_block list instrs)
      × IsLinked (extend_filter_block_list list another)
      × (code (extend_filter_block_list list another) ≡ code list ++ code another)
filter_blocks-IsLinked list another instrs l a some_there = (
  append_filter_block-new instrs,
  first_block-IsLinked instrs,
  append_filter_block-Appended list instrs l,
  extend-IsLinked list another l a some_there,
  extend-code list another l,
)

-- The result of an append that succeeds.
pub appended :
    (head : FilterBlock) (instrs : List Instr) {head' : FilterBlock}
    → IsLinked head
    → append_filter_block head instrs ≡ done head'
    → IsLinked head' × (head'.next ≢ []) × (code head' ≡ code head ++ instrs)
appended head instrs linked e =
    subst (λ (r : Outcome FilterBlock). Appended (code head) instrs r) e
      (append_filter_block-Appended head instrs linked)
