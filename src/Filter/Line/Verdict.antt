-- ===== src/Filter/Line/Verdict.antt =====
-- The verdict of the block that `compile_policy_line` makes of a line.
use minijail.Base.{
  ℕ, ◌%◌, ◌^◌, ◌<◌, ◌≤◌, Bool, true, List, [], ◌∷◌, ◌++◌, some, if◌then◌else◌, Bytes, codes, length,
  ◌≡◌, ◌≢◌, refl, sym, ap, ◌∙◌, arith, append_assoc, Bool-cases, inl, inr, starts_with,
}
use minijail.Bpf.{Instr, set_bpf_lbl, set_bpf_stmt, set_bpf_ret_allow}
use minijail.Bpf.Code
use minijail.Bpf.Ret
use minijail.Bpf.Labels.{Labels, bpf_labels_max}
use minijail.Bpf.Machine.{Data, State, labelled, exec, distance, exec-lbl, exec-ret}
use mathlib.Core.Path.{subst}
use minijail.Filter.Blocks.{FilterBlock, append_filter_block}
use minijail.Filter.Blocks.Flatten.{code}
use minijail.Filter.Blocks.Linked.{
  IsLinked, appended, append_filter_block-new, first_block-IsLinked,
}
use minijail.Filter.Line.{
  BlockAction, compile_groups, compile_errno, append_default, split_line, entry_block,
  compile_filter_line, compile_policy_line,
}
use minijail.Filter.Line.Compile.{success_lbl-done, compile_groups-Grows, compile_groups-done}
use minijail.Filter.Line.Meaning.{
  filter_holds, filter_in_range, groups_hold-any_holds, groups-AllGroups,
}
use minijail.Filter.Line.Run.{IsData, groups_code-exec}
use minijail.Filter.Names.{success_lbl}
use minijail.Filter.Outcome.{done, >>=-eq-done, done_inj}
use minijail.Util.Syscall.{ConstantEntry}
use minijail.Util.Text.{tokenize_all}
use minijail.Filter.Line.Default.{default_ret, compile_errno-done, append_default-done}

layout :
    (e g a b rest : List Instr) → (((e ++ g) ++ a) ++ b) ++ rest ≡ e ++ (g ++ (a ++ (b ++ rest)))
layout e g a b rest =
    append_assoc ((e ++ g) ++ a) b rest
    ∙ append_assoc (e ++ g) a (b ++ rest)
    ∙ append_assoc e g (a ++ (b ++ rest))

module _ (table : List ConstantEntry) where
  -- What a filter decides: a group that holds, or the verdict of the line.
  abbrev pub filter_verdict : Data → Bytes → BlockAction → ℕ
  filter_verdict d line action =
      if filter_holds table d (split_line table line).0
      then Ret.allow
      else default_ret table (split_line table line).1 action % 2 ^ 32

  record LineParts (nr : ℕ) (line : Bytes) (entry : ℕ) (labels : Labels) (action : BlockAction)
      (r : FilterBlock × Labels) : Type 0 where
    entry_head : FilterBlock
    groups : FilterBlock × Labels
    head₂ : FilterBlock
    success : ℕ
    labels₂ : Labels
    entry_done : entry_block table entry ≡ done entry_head
    groups_done :
        compile_groups table entry_head
          (tokenize_all (split_line table line).0 (codes "||"))
          labels
          nr
          0
        ≡ done groups
    default_done : append_default table groups.0 (split_line table line).1 action ≡ done head₂
    success_done : success_lbl groups.1 nr ≡ done (labels₂, success)
    result : append_filter_block head₂ (set_bpf_lbl success ∷ set_bpf_ret_allow ∷ []) ≡ done r.0

  compile_filter_line-parts :
      (nr : ℕ) (line : Bytes) (entry : ℕ) (labels : Labels) (action : BlockAction)
      {r : FilterBlock × Labels}
      → compile_filter_line table nr line entry labels action ≡ done r
      → LineParts nr line entry labels action r
  unfolding compile_filter_line
  compile_filter_line-parts nr line entry labels action e =
      let (entry_head, e₀, entry_done) = >>=-eq-done (entry_block table entry) _ e in
      let (groups, e₁, groups_done) =
        >>=-eq-done
          (compile_groups table entry_head (tokenize_all (split_line table line).0 (codes "||"))
            labels nr 0)
          _ e₀ in
      let (head₂, e₂, default_done) =
        >>=-eq-done (append_default table groups.0 (split_line table line).1 action) _ e₁ in
      let ((labels₂, success), e₃, success_done) = >>=-eq-done (success_lbl groups.1 nr) _ e₂ in
      let (head₃, e₄, result) =
        >>=-eq-done (append_filter_block head₂ (set_bpf_lbl success ∷ set_bpf_ret_allow ∷ [])) _
          e₃ in
      record {
        entry_head = entry_head;
        entry_done = entry_done;
        groups = groups;
        head₂ = head₂;
        success = success;
        labels₂ = labels₂;
        groups_done = groups_done;
        default_done = default_done;
        success_done = success_done;
        result = result ∙ ap (λ x. done x.0) (done_inj e₄);
      }

  -- The tail behind the groups: the default verdict, and the label behind which the call is allowed.
  abbrev tail : ℕ → ℕ → List Instr → List Instr
  tail k success rest = set_bpf_stmt Code.ret k ∷ set_bpf_lbl success ∷ set_bpf_ret_allow ∷ rest

  tail-distance :
      (k success : ℕ) (rest : List Instr)
      → distance (success % 2 ^ 32) (tail k success rest) ≡ some 1
  unfolding distance
  tail-distance k success rest = ground arith

  tail-accepts :
      (d : Data) (k success : ℕ) (rest : List Instr) (s : State)
      → exec labelled d (tail k success rest) 1 s ≡ some Ret.allow
  unfolding exec
  tail-accepts d k success rest s =
      exec-lbl d (set_bpf_ret_allow ∷ rest) s success ∙ exec-ret labelled d rest s Ret.allow

  -- The block at the beginning has the label of the entry.
  entry_block-done :
      (entry : ℕ) {head : FilterBlock}
      → entry_block table entry ≡ done head
      → IsLinked head × (code head ≡ set_bpf_lbl entry ∷ [])
  unfolding entry_block
  entry_block-done entry e =
      let lbl = set_bpf_lbl entry ∷ [] in
      subst (λ (head : FilterBlock). IsLinked head × (code head ≡ lbl))
        (done_inj (sym (append_filter_block-new lbl) ∙ e)) (first_block-IsLinked lbl, refl)

  module _ (nr : ℕ) (line : Bytes) (entry : ℕ) (labels : Labels) (action : BlockAction)
      {r : FilterBlock × Labels} (parts : LineParts nr line entry labels action r) where
    abbrev default : ℕ
    default = default_ret table (split_line table line).1 action

    line-code :
        (added rest : List Instr)
        → IsLinked parts.groups.0
        → code parts.groups.0 ≡ code parts.entry_head ++ added
        → IsLinked r.0
          × (r.0.next ≢ [])
          × (code r.0 ++ rest ≡ set_bpf_lbl entry ∷ (added ++ tail default parts.success rest))
    line-code added rest linked shape =
        let lasts = set_bpf_lbl parts.success ∷ set_bpf_ret_allow ∷ [] in
        let ret = set_bpf_stmt Code.ret default ∷ [] in
        let block =
          append_default-done table parts.groups.0 (split_line table line).1 action
            parts.default_done in
        let (linked₂, _, longer₂) = appended parts.groups.0 ret linked block in
        let (linked₃, some_there, longer₃) = appended parts.head₂ lasts linked₂ parts.result in
        let first = (entry_block-done entry parts.entry_done).1 in
        let head₂ : code parts.head₂ ≡ ((set_bpf_lbl entry ∷ []) ++ added) ++ ret =
          longer₂ ∙ ap (λ c. c ++ ret) (shape ∙ ap (λ c. c ++ added) first) in
        let whole : code r.0 ≡ (((set_bpf_lbl entry ∷ []) ++ added) ++ ret) ++ lasts =
          longer₃ ∙ ap (λ c. c ++ lasts) head₂ in
        (
          linked₃,
          some_there,
          ap (λ c. c ++ rest) whole ∙ layout (set_bpf_lbl entry ∷ []) added ret lasts rest,
        )

  compile_filter_line-verdict :
      (nr : ℕ) (line : Bytes) (entry : ℕ) (labels : Labels) (action : BlockAction)
      {r : FilterBlock × Labels} (d : Data) (rest : List Instr) (s : State)
      → compile_filter_line table nr line entry labels action ≡ done r
      → nr < 2 ^ 31
      → length labels ≤ bpf_labels_max
      → filter_in_range table (split_line table line).0 ≡ true
      → IsData d
      → exec labelled d (code r.0 ++ rest) 0 s ≡ some (filter_verdict d line action)
  compile_filter_line-verdict nr line entry labels action {r} d rest s e nr_fits fits in_range
        d_fits =
      let parts = compile_filter_line-parts nr line entry labels action e in
      let gs = tokenize_all (split_line table line).0 (codes "||") in
      let grows₁ = compile_groups-Grows table gs parts.entry_head labels nr 0 parts.groups_done in
      let (grows₂, given) = success_lbl-done parts.groups.1 nr parts.success_done in
      let (groups, texts, apart, adds) =
        compile_groups-done table parts.labels₂ nr parts.success nr_fits
          (grows₂.fits (grows₁.fits fits)) given gs parts.entry_head labels 0
          (entry_block-done entry parts.entry_done).0 parts.groups_done grows₂.extends in
      let k = default_ret table (split_line table line).1 action in
      let behind = tail k parts.success rest in
      let ran =
        groups_code-exec d d_fits parts.success behind 1 Ret.allow (k % 2 ^ 32)
          (tail-distance k parts.success rest) (tail-accepts d k parts.success rest)
          (λ s'. exec-ret labelled d _ s' k) groups s
          (groups-AllGroups table gs groups texts in_range) apart in
      ap (λ p. exec labelled d p 0 s)
        (line-code nr line entry labels action parts _ rest adds.linked adds.shape).2
      ∙ exec-lbl d _ s entry
      ∙ ran
      ∙ ap (λ b. some (if b then Ret.allow else k % 2 ^ 32))
          (sym (groups_hold-any_holds table d gs groups texts))

  compile_filter_line-IsLinked :
      (nr : ℕ) (line : Bytes) (entry : ℕ) (labels : Labels) (action : BlockAction)
      {r : FilterBlock × Labels}
      → compile_filter_line table nr line entry labels action ≡ done r
      → nr < 2 ^ 31
      → length labels ≤ bpf_labels_max
      → IsLinked r.0 × (r.0.next ≢ [])
  compile_filter_line-IsLinked nr line entry labels action e nr_fits fits =
      let parts = compile_filter_line-parts nr line entry labels action e in
      let gs = tokenize_all (split_line table line).0 (codes "||") in
      let grows₁ = compile_groups-Grows table gs parts.entry_head labels nr 0 parts.groups_done in
      let (grows₂, given) = success_lbl-done parts.groups.1 nr parts.success_done in
      let (groups, texts, apart, adds) =
        compile_groups-done table parts.labels₂ nr parts.success nr_fits
          (grows₂.fits (grows₁.fits fits)) given gs parts.entry_head labels 0
          (entry_block-done entry parts.entry_done).0 parts.groups_done grows₂.extends in
      let (linked, some_there, _) =
        line-code nr line entry labels action parts _ [] adds.linked adds.shape in
      (linked, some_there)

  -- A line that begins with "return" gives its verdict to every call.
  abbrev pub policy_verdict : Data → Bytes → BlockAction → ℕ
  policy_verdict d line action =
      if starts_with (codes "return") line
      then default_ret table (some line) action % 2 ^ 32
      else filter_verdict d line action

  abbrev pub policy_in_range : Bytes → Bool
  policy_in_range line =
      if starts_with (codes "return") line
      then true
      else filter_in_range table (split_line table line).0

  return-code :
      (line : Bytes) (entry : ℕ) (action : BlockAction) {first head : FilterBlock}
      → entry_block table entry ≡ done first
      → compile_errno table first line action ≡ done head
      → IsLinked head
        × (head.next ≢ [])
        × (code head
            ≡ set_bpf_lbl entry ∷ set_bpf_stmt Code.ret (default_ret table (some line) action) ∷ [])
  return-code line entry action {first} {head} e₀ e =
      let ret = set_bpf_stmt Code.ret (default_ret table (some line) action) ∷ [] in
      let (linked, lbl) = entry_block-done entry e₀ in
      let (linked', some_there, longer) =
        appended first ret linked (compile_errno-done table first line action e) in
      (linked', some_there, longer ∙ ap (λ c. c ++ ret) lbl)

  return-verdict :
      (line : Bytes) (entry : ℕ) (action : BlockAction) {first head : FilterBlock} (d : Data)
      (rest : List Instr) (s : State)
      → entry_block table entry ≡ done first
      → compile_errno table first line action ≡ done head
      → exec labelled d (code head ++ rest) 0 s
        ≡ some (default_ret table (some line) action % 2 ^ 32)
  return-verdict line entry action d rest s e₀ e =
      let k = default_ret table (some line) action in
      ap (λ c. exec labelled d (c ++ rest) 0 s) (return-code line entry action e₀ e).2
      ∙ exec-lbl d (set_bpf_stmt Code.ret k ∷ rest) s entry
      ∙ exec-ret labelled d rest s k

  -- If `compile_policy_line` compiles a line, its block gives every system call the verdict of the
  -- line, whatever stands behind the block. A line that begins with "return" gives the errno that it
  -- names, or else the action. Any other line allows the call if all atoms of one of its groups hold
  -- of the arguments, and gives the errno behind its semicolon, or else the action, if no group
  -- holds. The number of the call is an int, the table has at most 512 labels, and the atoms name
  -- arguments 0 to 5.
  pub compile_policy_line-verdict :
      (nr : ℕ) (line : Bytes) (entry : ℕ) (labels : Labels) (action : BlockAction)
      (r : FilterBlock × Labels) (d : Data) (rest : List Instr) (s : State)
      → compile_policy_line table nr line entry labels action ≡ done r
      → nr < 2 ^ 31
      → length labels ≤ bpf_labels_max
      → policy_in_range line ≡ true
      → IsData d
      → exec labelled d (code r.0 ++ rest) 0 s ≡ some (policy_verdict d line action)
  unfolding compile_policy_line
  compile_policy_line-verdict nr [] entry labels action r d rest s e nr_fits fits in_range d_fits =
      cc
  compile_policy_line-verdict nr (c ∷ l) entry labels action r d rest s e nr_fits fits in_range
        d_fits =
      elim (Bool-cases (starts_with (codes "return") (c ∷ l))) [
        | inl keyword ↦
            let (first, e₀, entry_done) =
              >>=-eq-done (entry_block table entry) _ (rw keyword at e) in
            let (head, e₁, errno_done) =
              >>=-eq-done (compile_errno table first (c ∷ l) action) _ e₀ in
            rw keyword (
              ap (λ x. exec labelled d (code x.0 ++ rest) 0 s) (sym (done_inj e₁))
              ∙ return-verdict (c ∷ l) entry action d rest s entry_done errno_done)
        | inr filter ↦ rw filter (
            compile_filter_line-verdict nr (c ∷ l) entry labels action d rest s (rw filter at e)
              nr_fits fits (rw filter at in_range) d_fits)
      ]

  -- The block that `compile_policy_line` makes of a line can be put into the list of policies: its
  -- pointers are right, it counts its instructions, and it has at least two parts, which
  -- extend_filter_block_list needs. The number of the call is an int, and the table has at most 512
  -- labels.
  pub compile_policy_line-IsLinked :
      (nr : ℕ) (line : Bytes) (entry : ℕ) (labels : Labels) (action : BlockAction)
      (r : FilterBlock × Labels)
      → compile_policy_line table nr line entry labels action ≡ done r
      → nr < 2 ^ 31
      → length labels ≤ bpf_labels_max
      → IsLinked r.0 × (r.0.next ≢ [])
  unfolding compile_policy_line
  compile_policy_line-IsLinked nr [] entry labels action r e nr_fits fits = cc
  compile_policy_line-IsLinked nr (c ∷ l) entry labels action r e nr_fits fits =
      elim (Bool-cases (starts_with (codes "return") (c ∷ l))) [
        | inl keyword ↦
            let (first, e₀, entry_done) =
              >>=-eq-done (entry_block table entry) _ (rw keyword at e) in
            let (head, e₁, errno_done) =
              >>=-eq-done (compile_errno table first (c ∷ l) action) _ e₀ in
            let (linked, some_there, _) = return-code (c ∷ l) entry action entry_done errno_done in
            subst (λ (x : FilterBlock × Labels). IsLinked x.0 × (x.0.next ≢ [])) (done_inj e₁)
              (linked, some_there)
        | inr filter ↦
            compile_filter_line-IsLinked nr (c ∷ l) entry labels action (rw filter at e) nr_fits
              fits
      ]
