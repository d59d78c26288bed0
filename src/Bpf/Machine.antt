-- ===== src/Bpf/Machine.antt =====
-- What the instructions mean to the kernel: the specification that the blocks of bpf.c are held
-- to. It follows the documented behaviour of classic BPF, which tools/bpf.py (`simulate`) also
-- runs, with the scratch memory that only bpf.c uses. Jumps go forward, so a program is read
-- once, with the number of instructions still to pass over.
use minijail.Base.{
  ℕ, zero, suc, ◌+◌, ◌-◌, ◌/◌, ◌%◌, ◌^◌, ◌<◌, bit_and, Bool, ◌&&◌, not, List, [], ◌∷◌, ◌++◌, Option,
  none, some, if◌then◌else◌, ◌==◌, ltb, leb, length, ◌≡◌, refl, arith, ap, ◌∙◌,
}
use Prim.Native.Nat.add
use mathlib.Core.Option
use minijail.Bpf.{
  set_bpf_lbl, set_bpf_jump_lbl, jump_jt, jump_jf, label_jt, label_jf, Instr, set_bpf_stmt,
  set_bpf_jump, lo_word, hi_word, lo_arg, hi_arg, bpf_load_arg,
}
use minijail.Bpf.Code

-- struct seccomp_data
pub record Data : Type 0 where
  pub nr : ℕ
  pub arch : ℕ
  pub instruction_pointer : ℕ
  pub args : ℕ → ℕ

-- The accumulator and the scratch memory.
pub record State : Type 0 where
  pub acc : ℕ
  pub mem : ℕ → ℕ

abbrev pub update : (ℕ → ℕ) → ℕ → ℕ → ℕ → ℕ
update m p v q = if p == q then v else m q

abbrev pub half : ℕ → ℕ → ℕ
half j x = if j % 2 == 0 then lo_word x else hi_word x

-- The aligned 32-bit word at offset `k`, none outside of the structure.
unfoldable pub load : Data → ℕ → Option ℕ
load d k =
    if not (k % 4 == 0 && ltb k 64)
    then none
    else if k == 0
    then some (lo_word d.nr)
    else if k == 4
    then some (lo_word d.arch)
    else if ltb k 16
    then some (half (k / 4) d.instruction_pointer)
    else some (half (k / 4) (d.args ((k - 16) / 8)))

pub data Outcome : Type 0 where
  stop : ℕ → Outcome
  go : ℕ → State → Outcome
  fault : Outcome

abbrev pub branch : Bool → Instr → State → Outcome
branch test i s = go (if test then i.jt else i.jf) s

-- The kernel reads a resolved program. `labelled` reads one whose jumps still name labels, as the
-- functions of bpf.c and syscall_filter.c build it.
pub data Mode : Type 0 where
  kernel labelled : Mode

abbrev pub has_marks : ℕ → ℕ → Instr → Bool
has_marks jt jf i = i.code == Code.ja && i.jt == jt && i.jf == jf

abbrev pub is_jump_lbl : Instr → Bool
is_jump_lbl i = has_marks jump_jt jump_jf i

abbrev pub is_lbl : Instr → Bool
is_lbl i = has_marks label_jt label_jf i

-- The number of instructions in front of the label `id`.
unfoldable pub distance : ℕ → List Instr → Option ℕ
distance id [] = none
distance id (i ∷ p) = if is_lbl i && i.k == id then some 0 else Option.map suc (distance id p)

abbrev pub jump : Mode → List Instr → Instr → State → Outcome
jump kernel p i s = go i.k s
jump labelled p i s =
    if is_lbl i
    then go 0 s
    else if is_jump_lbl i
    then elim (distance i.k p) [ none ↦ fault | some n ↦ go n s ]
    else go i.k s

-- One instruction `i`, with the program `p` behind it.
unfoldable pub step : Mode → Data → List Instr → Instr → State → Outcome
step m d p i s =
    if i.code == Code.ld_abs
    then elim (load d i.k) [ none ↦ fault | some w ↦ go 0 (record s { acc = w }) ]
    else if i.code == Code.ld_mem
    then go 0 (record s { acc = s.mem i.k })
    else if i.code == Code.st
    then go 0 (record s { mem = update s.mem i.k s.acc })
    else if i.code == Code.ja
    then jump m p i s
    else if i.code == Code.jeq
    then branch (s.acc == i.k) i s
    else if i.code == Code.jgt
    then branch (ltb i.k s.acc) i s
    else if i.code == Code.jge
    then branch (leb i.k s.acc) i s
    else if i.code == Code.jset
    then branch (not (bit_and s.acc i.k == 0)) i s
    else if i.code == Code.ret
    then stop i.k
    else fault

-- The verdict of a program, none if it faults or runs off its end. `k` instructions are passed
-- over first.
unfoldable pub exec : Mode → Data → List Instr → ℕ → State → Option ℕ
exec m d [] k s = none
exec m d (i ∷ p) (suc k) s = exec m d p k s
exec m d (i ∷ p) zero s = elim (step m d p i s) [
  | stop v ↦ some v
  | go k s' ↦ exec m d p k s'
  | fault ↦ none
]

abbrev pub start : State
start = record { acc = 0; mem = λ _. 0 }

pub verdict : Data → List Instr → Option ℕ
verdict d p = exec kernel d p 0 start

-- Passing over a block.
pub exec-length :
    (m : Mode) (d : Data) (p rest : List Instr) (k : ℕ) (s : State)
    → exec m d (p ++ rest) (length p + k) s ≡ exec m d rest k s
unfolding exec
exec-length m d [] rest k s = rw add.zero
exec-length m d (i ∷ p) rest k s = rw add.suc (exec-length m d p rest k s)

pub load-lo_arg :
    (d : Data) (i : ℕ) → i < 6 → load d (lo_arg i % 2 ^ 32) ≡ some (lo_word (d.args i))
unfolding load
load-lo_arg d i h =
    ground (arith, ap d.args {x = (lo_arg i % 2 ^ 32 - 16) / 8} {y = i} (omega arith))

pub load-hi_arg :
    (d : Data) (i : ℕ) → i < 6 → load d (hi_arg i % 2 ^ 32) ≡ some (hi_word (d.args i))
unfolding load
load-hi_arg d i h =
    ground (arith, ap d.args {x = (hi_arg i % 2 ^ 32 - 16) / 8} {y = i} (omega arith))

-- One instruction at a time.
module _ (m : Mode) (d : Data) (p : List Instr) (s : State) (k : ℕ) where
  pub exec-ld_abs :
      (w : ℕ)
      → load d (k % 2 ^ 32) ≡ some w
      → exec m d (set_bpf_stmt Code.ld_abs k ∷ p) 0 s ≡ exec m d p 0 (record s { acc = w })
  unfolding exec step
  exec-ld_abs w e = rw (e, exec, step)

  pub exec-ld_mem :
      exec m d (set_bpf_stmt Code.ld_mem k ∷ p) 0 s
      ≡ exec m d p 0 (record s { acc = s.mem (k % 2 ^ 32) })
  unfolding exec step
  exec-ld_mem = refl

  pub exec-st :
      exec m d (set_bpf_stmt Code.st k ∷ p) 0 s
      ≡ exec m d p 0 (record s { mem = update s.mem (k % 2 ^ 32) s.acc })
  unfolding exec step
  exec-st = refl

  pub exec-ret : exec m d (set_bpf_stmt Code.ret k ∷ p) 0 s ≡ some (k % 2 ^ 32)
  unfolding exec step
  exec-ret = refl

  module _ (jt jf : ℕ) where
    pub exec-jeq :
        exec m d (set_bpf_jump Code.jeq k jt jf ∷ p) 0 s
        ≡ exec m d p (if s.acc == k % 2 ^ 32 then jt % 2 ^ 8 else jf % 2 ^ 8) s
    unfolding exec step
    exec-jeq = refl

    pub exec-jgt :
        exec m d (set_bpf_jump Code.jgt k jt jf ∷ p) 0 s
        ≡ exec m d p (if ltb (k % 2 ^ 32) s.acc then jt % 2 ^ 8 else jf % 2 ^ 8) s
    unfolding exec step
    exec-jgt = refl

    pub exec-jge :
        exec m d (set_bpf_jump Code.jge k jt jf ∷ p) 0 s
        ≡ exec m d p (if leb (k % 2 ^ 32) s.acc then jt % 2 ^ 8 else jf % 2 ^ 8) s
    unfolding exec step
    exec-jge = refl

    pub exec-jset :
        exec m d (set_bpf_jump Code.jset k jt jf ∷ p) 0 s
        ≡ exec m d p (if not (bit_and s.acc (k % 2 ^ 32) == 0) then jt % 2 ^ 8 else jf % 2 ^ 8) s
    unfolding exec step
    exec-jset = refl

-- Labels, and jumps to them, in a program that is not resolved.
module _ (d : Data) (p : List Instr) (s : State) (id : ℕ) where
  pub exec-lbl : exec labelled d (set_bpf_lbl id ∷ p) 0 s ≡ exec labelled d p 0 s
  unfolding exec step
  exec-lbl = refl

  pub exec-jump_lbl :
      (n : ℕ)
      → distance (id % 2 ^ 32) p ≡ some n
      → exec labelled d (set_bpf_jump_lbl id ∷ p) 0 s ≡ exec labelled d p n s
  unfolding exec step
  exec-jump_lbl n e = rw (e, exec, step)

-- After `bpf_load_arg` the accumulator holds the high half, and the memory both.
abbrev pub loaded : Data → ℕ → State → State
loaded d i s = record {
  acc = hi_word (d.args i);
  mem = update (update s.mem 0 (lo_word (d.args i))) 1 (hi_word (d.args i));
}

pub exec-bpf_load_arg :
    (m : Mode) (d : Data) (i : ℕ) (rest : List Instr) (s : State)
    → i < 6
    → exec m d (bpf_load_arg i ++ rest) 0 s ≡ exec m d rest 0 (loaded d i s)
unfolding bpf_load_arg
exec-bpf_load_arg m d i rest s h =
    exec-ld_abs m d _ s (lo_arg i) _ (load-lo_arg d i h)
    ∙ exec-st m d _ (record s { acc = lo_word (d.args i) }) 0
    ∙ exec-ld_abs m d _ _ (hi_arg i) _ (load-hi_arg d i h)
    ∙ exec-st m d rest _ 1
