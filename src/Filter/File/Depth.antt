-- ===== src/Filter/File/Depth.antt =====
-- `compile_file` calls itself once at most: an included file includes nothing.
use minijail.Base.{
  ℕ, suc, ◌+◌, ◌%◌, ◌^◌, Bool, true, ◌&&◌, List, [], ◌∷◌, Option, none, ltb, ◌==◌, Bytes, codes,
  starts_with, ◌≡◌, refl, ap, ◌∙◌, arith, Bool-cases, Option-cases, inl, inr,
}
use minijail.Filter.File.{
  ParserState, FilterOptions, File, Compilation, byte_is, parse_include_statement,
  compile_statement, compile_stripped, compile_lines, file_result, compile_file,
}
use minijail.Filter.Outcome.{Outcome, done, fail, die, ◌>>=◌}
use minijail.Util.Syscall.{SyscallEntry, ConstantEntry}
use minijail.Util.Text.{strip}

>>=-cong {ℓ κ} :
    {A : Type ℓ} {B : Type κ} (m : Outcome A) (f g : A → Outcome B)
    → ((a : A) → f a ≡ g a)
    → (m >>= f) ≡ (m >>= g)
>>=-cong (done a) f g h = h a
>>=-cong fail f g h = refl
>>=-cong die f g h = refl

parse_include_statement-nested :
    (line : Bytes) (level : ℕ) → parse_include_statement line (level + 1) ≡ none
unfolding parse_include_statement
parse_include_statement-nested line level =
    elim (Bool-cases (starts_with (codes "@include") line)) [
      | inr other ↦ rw other refl
      | inl keyword ↦ elim (Bool-cases (byte_is line 8 b' ')) [
        | inr other ↦ rw (keyword, other) refl
        | inl space ↦
            let nested : ltb 0 (level + 1) ≡ true = ground arith in rw (keyword, space, nested) refl
      ]
    ]

module _ (syscall_table : List SyscallEntry) (constant_table : List ConstantEntry)
    (fopen : Bytes → Option File) (filteropts : FilterOptions) where
  abbrev Included : Type 0
  Included = Bytes → File → Compilation → Outcome Compilation

  abbrev statement : Included → ℕ → Compilation → Bytes → Outcome (Compilation × Bool)
  statement = compile_statement syscall_table constant_table fopen filteropts

  abbrev lines_from :
      Included → ℕ → ParserState → Bool → List Bytes → Compilation → Outcome (Compilation × Bool)
  lines_from = compile_lines syscall_table constant_table fopen filteropts

  -- Two functions for included files that make no difference to a statement.
  abbrev Alike : Included → Included → ℕ → Type 0
  Alike included included' level =
      (c : Compilation) (line : Bytes)
      → statement included level c line ≡ statement included' level c line

  module _ (included included' : Included) (level : ℕ) where
    Alike-compile_stripped :
        Alike included included' level
        → (c : Compilation) (state : ParserState) (line : Bytes)
        → compile_stripped syscall_table constant_table fopen filteropts included level c state line
          ≡ compile_stripped syscall_table constant_table fopen filteropts included' level c state
              line
    unfolding compile_stripped
    Alike-compile_stripped alike c state [] = refl
    Alike-compile_stripped alike c state (x ∷ s) = elim (Bool-cases (x == b'#')) [
      | inl comment ↦ rw comment refl
      | inr other ↦ elim (Bool-cases (x == b'@')) [
        | inl at ↦ rw (other, at) (alike c (x ∷ s))
        | inr plain ↦ rw (other, plain) refl
      ]
    ]

    Alike-compile_lines :
        Alike included included' level
        → (state : ParserState) (ret : Bool) (lines : List Bytes) (c : Compilation)
        → lines_from included level state ret lines c ≡ lines_from included' level state ret lines c
    unfolding compile_lines
    Alike-compile_lines alike state ret [] c = refl
    Alike-compile_lines alike state ret (line ∷ lines) c =
        let state' = record state { line_number = (state.line_number + 1) % 2 ^ 64 } in
        ap (λ m. m >>= λ r. lines_from included level state' (ret && r.1) lines r.0)
          (Alike-compile_stripped alike c state' (strip line))
        ∙ >>=-cong _ _ _ (λ r. Alike-compile_lines alike state' (ret && r.1) lines r.0)

    -- At a level above 0 no statement opens a file.
    nested-Alike : Alike included included' (level + 1)
    unfolding compile_statement
    nested-Alike c line = elim (Bool-cases (starts_with (codes "@frequency") line)) [
      | inl frequency ↦ rw frequency refl
      | inr other ↦ rw (other, parse_include_statement-nested line level) refl
    ]

    same-Alike :
        ((filename : Bytes) (file : File) (c : Compilation)
          → included filename file c ≡ included' filename file c)
        → Alike included included' level
    unfolding compile_statement
    same-Alike same c line = elim (Bool-cases (starts_with (codes "@frequency") line)) [
      | inl frequency ↦ rw frequency refl
      | inr other ↦ elim (Option-cases (parse_include_statement line level)) [
        | inl refused ↦ rw (other, refused) refl
        | inr (filename, accepted) ↦ elim (Option-cases (fopen filename)) [
          | inl missing ↦ rw (other, accepted, missing) refl
          | inr (file, opened) ↦
              rw (other, accepted, opened)
                (ap (λ m. m >>= λ c'. done (c', true)) (same filename file c))
        ]
      ]
    ]

  abbrev file_from : ℕ → ℕ → Bytes → File → Compilation → Outcome Compilation
  file_from = compile_file syscall_table constant_table fopen filteropts

  nested-depth :
      (depth level : ℕ) (filename : Bytes) (file : File) (c : Compilation)
      → file_from (suc depth) (level + 1) filename file c ≡ file_from 1 (level + 1) filename file c
  unfolding compile_file
  nested-depth depth level filename file c =
      ap (λ m. m >>= file_result syscall_table constant_table fopen filteropts file.feof)
        (Alike-compile_lines _ _ (level + 1) (nested-Alike _ _ level) _ true _ c)

  -- Calls of `compile_file` by itself end at depth 2: with any greater depth it gives the same
  -- result for every file and every table, so that the depth of the model never runs out.
  pub compile_file-depth :
      (depth level : ℕ) (filename : Bytes) (file : File) (c : Compilation)
      → file_from (suc (suc depth)) level filename file c ≡ file_from 2 level filename file c
  unfolding compile_file
  compile_file-depth depth level filename file c =
      ap (λ m. m >>= file_result syscall_table constant_table fopen filteropts file.feof)
        (Alike-compile_lines _ _ level (same-Alike _ _ level (nested-depth depth level)) _ true _ c)
