-- ===== src/Filter/File/Link.antt =====
-- The program that `compile_filter` puts together from the jump table and the blocks.
use minijail.Base.{
  ℕ, zero, suc, ◌+◌, ◌≤◌, true, List, [], ◌∷◌, ◌++◌, Option, some, ltb, leb, length, length-append,
  ◌≡◌, refl, sym, ap, ◌∙◌, arith, Bool-cases, inl, inr,
}
use minijail.Bpf.{Instr, set_bpf_instr}
use minijail.Bpf.Labels.{Labels, Result, ok, err, bpf_resolve_jumps, bpf_maxinsns}
use minijail.Bpf.Labels.Placed.{IsFresh, IsInstr, All}
use minijail.Bpf.Labels.Resolve.{bpf_resolve_jumps-exec}
use minijail.Bpf.Machine.{Data, State, kernel, labelled, exec}
use minijail.Filter.Blocks.{FilterBlock, flatten_block_list}
use minijail.Filter.Blocks.Flatten.{code, IsMeasured, flatten_block_list-flattened}
use minijail.Filter.File.{FilterOptions, File, zeros, linked, link}
use minijail.Filter.Outcome.{done, done_inj}
use minijail.Util.Syscall.{SyscallEntry, ConstantEntry}
use minijail.Base.{Bytes}

zeros-add : (m n : ℕ) → zeros (m + n) ≡ zeros m ++ zeros n
zeros-add zero n = ap zeros {x = 0 + n} {y = n} (omega arith)
zeros-add (suc m) n =
    ap zeros {x = suc m + n} {y = suc (m + n)} (omega arith)
    ∙ ap (◌∷◌ (set_bpf_instr 0 0 0 0)) (zeros-add m n)

length-zeros : (n : ℕ) → length (zeros n) ≡ n
length-zeros zero = refl
length-zeros (suc n) = ap suc (length-zeros n)

append_nil : (p : List Instr) → p ++ [] ≡ p
append_nil [] = refl
append_nil (i ∷ p) = ap (◌∷◌ i) (append_nil p)

-- The two calls of `flatten_block_list` fill the buffer.
pub flatten-head :
    (head : FilterBlock) (n : ℕ)
    → IsMeasured head
    → flatten_block_list head (zeros (head.total_len + n)) 0 (head.total_len + n)
      ≡ some (code head ++ zeros n)
flatten-head head n m =
    let cap = head.total_len + n in
    let room : leb (0 + length (code head)) cap ≡ true = ground (arith, m) in
    ap (λ z. flatten_block_list head z 0 cap) (zeros-add head.total_len n)
    ∙ flatten_block_list-flattened head [] (zeros head.total_len) (zeros n) cap m
        (length-zeros head.total_len) (omega arith)
    ∙ rw room refl

flatten-blocks :
    (head blocks : FilterBlock)
    → IsMeasured head
    → IsMeasured blocks
    → flatten_block_list blocks
        (code head ++ zeros blocks.total_len)
        head.total_len
        (head.total_len + blocks.total_len)
      ≡ some (code head ++ code blocks)
flatten-blocks head blocks m m' =
    let cap = head.total_len + blocks.total_len in
    let room : leb (length (code head) + length (code blocks)) cap ≡ true = ground (arith, m, m') in
    ap (λ z. flatten_block_list blocks (code head ++ z) head.total_len cap)
      (sym (append_nil (zeros blocks.total_len)))
    ∙ ap (λ n. flatten_block_list blocks (code head ++ (zeros blocks.total_len ++ [])) n cap) m
    ∙ flatten_block_list-flattened blocks (code head) (zeros blocks.total_len) [] cap m'
        (length-zeros blocks.total_len) (omega (arith, m))
    ∙ rw room (ap (λ c. some (code head ++ c)) (append_nil (code blocks)))

pub linked-done :
    (r : Result (Labels × List Instr)) {p : List Instr}
    → linked r ≡ done p
    → (labels : Labels) × (r ≡ ok (labels, p))
linked-done (err e) h = cc
linked-done (ok (labels, q)) h = (labels, ap (λ x. ok (labels, x)) (done_inj h))

module _ (syscall_table : List SyscallEntry) (constant_table : List ConstantEntry)
    (fopen : Bytes → Option File) (filteropts : FilterOptions) where
  link-resolved :
      (head blocks : FilterBlock) (labels : Labels) {p : List Instr}
      → IsMeasured head
      → IsMeasured blocks
      → link syscall_table constant_table fopen filteropts head blocks labels ≡ done p
      → (head.total_len + blocks.total_len ≤ bpf_maxinsns)
        × ((labels' : Labels) × (bpf_resolve_jumps labels (code head ++ code blocks)
              ≡ ok (labels', p)))
  unfolding link
  link-resolved head blocks labels m m' e =
      elim (Bool-cases (ltb bpf_maxinsns (head.total_len + blocks.total_len))) [
        | inl long ↦ absurd (cc (rw (long, link) at e))
        | inr short ↦ (
          ground arith,
          linked-done _ (
              rw
                (short, link, flatten-head head blocks.total_len m, flatten-blocks head blocks m m')
                at e),
        )
      ]

  -- The program that is put together from a list of blocks for the jump table and one for the
  -- policies has at most BPF_MAXINSNS instructions, one for each instruction of the blocks, and on
  -- every input the kernel gives it the verdict of the instructions of the blocks read with their
  -- labels. The blocks count their instructions, and no label is placed yet.
  pub link-exec :
      (head blocks : FilterBlock) (labels : Labels) (p : List Instr)
      → IsMeasured head
      → IsMeasured blocks
      → IsFresh labels
      → All IsInstr (code head ++ code blocks)
      → link syscall_table constant_table fopen filteropts head blocks labels ≡ done p
      → (length p ≤ bpf_maxinsns)
        × (length p ≡ head.total_len + blocks.total_len)
        × ((d : Data) (k : ℕ) (s : State)
            → exec kernel d p k s ≡ exec labelled d (code head ++ code blocks) k s)
  link-exec head blocks labels p m m' fresh instrs e =
      let (short, (labels', resolved)) = link-resolved head blocks labels m m' e in
      let whole = code head ++ code blocks in
      let (same_length, same_run) =
        bpf_resolve_jumps-exec labels labels' whole p fresh instrs resolved in
      let measured : length p ≡ head.total_len + blocks.total_len =
        omega (arith, same_length, length-append (code head) (code blocks), m, m') in
      (omega (arith, measured, short), measured, same_run)
