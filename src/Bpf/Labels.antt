-- ===== src/Bpf/Labels.antt =====
-- The label table of bpf.c: `bpf_label_id`, and `bpf_resolve_jumps` with its backward walk.
pub mod Table
pub mod Given
pub mod Placed
pub mod Resolve
use minijail.Base.{
  ℕ, zero, suc, ◌+◌, ◌-◌, ◌*◌, ◌%◌, ◌^◌, Bool, true, false, not, List, [], ◌∷◌, ◌++◌, Option, none,
  some, if◌then◌else◌, ◌==◌, ltb, leb, length, get_elem?, set, take, Bytes, streq, ◌≡◌, refl,
}
use minijail.Bpf.{Instr, jump_jt, jump_jf, label_jt, label_jf}
use minijail.Bpf.Code

-- struct __bpf_label; `count` of struct bpf_labels is the length of the table.
pub record Label : Type 0 where
  pub label : Bytes
  pub location : ℕ

abbrev pub Labels : Type 0
Labels = List Label

abbrev pub bpf_labels_max : ℕ
bpf_labels_max = 512

abbrev pub max_bpf_label_len : ℕ
max_bpf_label_len = 32

-- The location of a label that is not placed yet.
abbrev pub unplaced : ℕ
unplaced = 0xffffffff

-- `strndup(label, MAX_BPF_LABEL_LEN)`, which succeeds here.
abbrev pub new_label : Bytes → Label
new_label s = record { label = take max_bpf_label_len s; location = unplaced }

unfoldable pub find_label : ℕ → Labels → Bytes → Option ℕ
find_label id [] s = none
find_label id (l ∷ ls) s = if streq s l.label then some id else find_label (id + 1) ls s

-- The new table and the id, none for -1.
unfoldable pub bpf_label_id : Labels → Bytes → Labels × Option ℕ
bpf_label_id labels s =
    if length labels == 0 then (new_label s ∷ [], some 0) else elim (find_label 0 labels s) [
      | some id ↦ (labels, some id)
      | none ↦
          if length labels == bpf_labels_max
          then (labels, none)
          else (labels ++ (new_label s ∷ []), some (length labels))
    ]

-- What a step of `bpf_resolve_jumps` returns: -1 with the warning that it prints. The source does
-- not compare the id of a label with `count`: an id that is not in the table reads or writes an
-- entry that was never set, `stray_label` here.
pub data Refusal : Type 0 where
  too_many_instrs stray_label : Refusal
  nonexistent_label unresolved_label duplicate_label : ℕ → Refusal

pub data Result {ℓ} (A : Type ℓ) : Type ℓ where
  err : Refusal → Result A
  ok : A → Result A

infixl 5 ◌>>=◌
abbrev pub ◌>>=◌ {ℓ κ} : {A : Type ℓ} {B : Type κ} → Result A → (A → Result B) → Result B
err refusal >>= next = err refusal
ok a >>= next = next a

-- The steps of a chain that ends well.
pub >>=-eq-ok {ℓ κ} :
    {A : Type ℓ} {B : Type κ} {b : B} (first : Result A) (next : A → Result B)
    → (first >>= next) ≡ ok b
    → (a : A) × (next a ≡ ok b) × (first ≡ ok a)
>>=-eq-ok (ok a) next h = (a, h, refl)
>>=-eq-ok (err e) next h = cc

-- `instr->k = location - (offset + 1)`, a size_t that is cut to an unsigned int.
abbrev pub jump_to : ℕ → ℕ → Instr → Instr
jump_to location offset i = record i {
  jt = 0;
  jf = 0;
  k = (location + 2 ^ 64 - (offset + 1)) % 2 ^ 64 % 2 ^ 32;
}

-- `(jt << 8) | jf`
abbrev pub marks : ℕ → ℕ → ℕ
marks jt jf = jt * 2 ^ 8 + jf

unfoldable pub resolve_jump : Labels → ℕ → Instr → Result (Labels × Instr)
resolve_jump labels offset i =
    if leb (length labels) i.k then err (nonexistent_label i.k) else elim (get_elem? labels i.k) [
      | none ↦ err (nonexistent_label i.k)
      | some l ↦
          if l.location == unplaced
          then err (unresolved_label i.k)
          else ok (labels, jump_to l.location offset i)
    ]

unfoldable pub place_label : Labels → ℕ → Instr → Result (Labels × Instr)
place_label labels offset i = elim (get_elem? labels i.k) [
  | none ↦ err stray_label
  | some l ↦
      if not (l.location == unplaced)
      then err (duplicate_label i.k)
      else ok (
        set labels i.k (record l { location = offset % 2 ^ 32 }),
        record i { k = 0; jt = 0; jf = 0 },
      )
]

-- The body of the loop, at the instruction `i` of index `offset`.
unfoldable pub resolve_instr : Labels → ℕ → Instr → Result (Labels × Instr)
resolve_instr labels offset i =
    if not (i.code == Code.ja)
    then ok (labels, i)
    else if marks i.jt i.jf == marks jump_jt jump_jf
    then resolve_jump labels offset i
    else if marks i.jt i.jf == marks label_jt label_jf
    then place_label labels offset i
    else ok (labels, i)

-- The loop: the instructions from index `offset` on, the last one first.
unfoldable pub resolve_from : Labels → ℕ → List Instr → Result (Labels × List Instr)
resolve_from labels offset [] = ok (labels, [])
resolve_from labels offset (i ∷ p) = do
  (labels', p') ← resolve_from labels (offset + 1) p
  (labels'', i') ← resolve_instr labels' offset i
  ok (labels'', i' ∷ p')

abbrev pub bpf_maxinsns : ℕ
bpf_maxinsns = 4096

unfoldable pub bpf_resolve_jumps : Labels → List Instr → Result (Labels × List Instr)
bpf_resolve_jumps labels filter =
    if ltb bpf_maxinsns (length filter) then err too_many_instrs else resolve_from labels 0 filter
