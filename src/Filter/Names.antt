-- ===== src/Filter/Names.antt =====
-- The labels of syscall_filter.c: `get_label_id`, `group_end_lbl` and `success_lbl`.
pub mod Apart
use minijail.Base.{
  ℕ, zero, suc, ◌+◌, ◌/◌, ◌%◌, [], ◌∷◌, ◌++◌, none, some, if◌then◌else◌, ltb, take, Bytes, codes,
}
use minijail.Bpf.Labels.{Labels, bpf_label_id}
use minijail.Filter.Outcome.{Outcome, done, die}

-- "%d" of a number that is not negative: the digits in front of `rest`.
unfoldable pub digits_onto : ℕ → ℕ → Bytes → Bytes
digits_onto zero n rest = rest
digits_onto (suc fuel) n rest =
    let digit = (b'0' + n % 10) ∷ rest in
    let more = digits_onto fuel (n / 10) digit in if ltb n 10 then digit else more

unfoldable pub decimal : ℕ → Bytes
unfolding digits_onto
decimal n = digits_onto (suc n) n []

-- The new table and the id.
unfoldable pub get_label_id : Labels → Bytes → Outcome (Labels × ℕ)
get_label_id labels label_str =
    let (labels', label_id) = bpf_label_id labels label_str in
    elim label_id [ none ↦ die | some id ↦ done (labels', id) ]

-- `snprintf` into MAX_BPF_LABEL_LEN bytes keeps 31 of them.
unfoldable pub group_end_name : ℕ → ℕ → Bytes
group_end_name nr idx = take 31 (decimal nr ++ (b'_' ∷ (decimal idx ++ codes "_end")))

unfoldable pub success_name : ℕ → Bytes
success_name nr = take 31 (decimal nr ++ (b'_' ∷ codes "success"))

unfoldable pub group_end_lbl : Labels → ℕ → ℕ → Outcome (Labels × ℕ)
group_end_lbl labels nr idx = get_label_id labels (group_end_name nr idx)

unfoldable pub success_lbl : Labels → ℕ → Outcome (Labels × ℕ)
success_lbl labels nr = get_label_id labels (success_name nr)
