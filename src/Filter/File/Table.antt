-- ===== src/Filter/File/Table.antt =====
-- The jump table that `compile_file` and `compile_filter` build in `head`.
use minijail.Base.{
  ℕ, zero, suc, ◌+◌, ◌%◌, ◌^◌, Bool, true, false, ◌&&◌, List, [], ◌∷◌, ◌++◌, Option, none, some,
  if◌then◌else◌, ◌==◌, Bytes, codes, streq, starts_with, ◌≡◌, ◌≢◌, refl, sym, ap, ◌∙◌, append_assoc,
}
use mathlib.Core.Path.{subst}
use minijail.Bpf.{
  Instr, lo_word, bpf_validate_arch, bpf_load_syscall_nr, bpf_allow_syscall, bpf_allow_syscall_args,
}
use minijail.Bpf.Labels.{bpf_label_id}
use minijail.Bpf.Dispatch.{
  Entry, allowed, checked, entry_code, entries_code, head_code, foreign-exec,
}
use minijail.Bpf.Machine.{Data, State, labelled, exec}
use minijail.Bpf.Ret
use minijail.Filter.Blocks.{
  FilterBlock, new_filter_block, append_filter_block, append_allow_syscall,
}
use minijail.Filter.Blocks.Flatten.{code}
use minijail.Filter.Blocks.Linked.{
  IsLinked, Appended, append_filter_block-Appended, append_filter_block-new, code-first_block,
  first_block-IsLinked,
}
use minijail.Filter.File.{
  ParserState, FilterOptions, File, Compilation, log_syscalls, number_or, unchecked_id,
  insert_and_check_duplicate_syscall, parse_include_statement, allow_syscalls, add_syscall,
  compile_line, compile_statement, compile_stripped, compile_lines, compile_file, compile_entries,
}
use minijail.Filter.Outcome.{Outcome, done, fail, die, ◌>>=◌}
use minijail.Util.Lines.{read_all}
use minijail.Util.Syscall.{SyscallEntry, ConstantEntry, lookup_syscall}
use minijail.Util.Text.{strip, strsep}

-- A value, if there is one, has the property.
data Ends {ℓ} {A : Type ℓ} (P : A → Type 0) : Outcome A → Type ℓ where
  ends : {a : A} → P a → Ends P (done a)
  fails : Ends P fail
  dies : Ends P die

ended {ℓ} : {A : Type ℓ} {P : A → Type 0} {a : A} → Ends P (done a) → P a
ended (ends p) = p

Ends-step {ℓ κ} :
    {A : Type ℓ} {B : Type κ} {P : A → Type 0} {Q : B → Type 0} {first : Outcome A}
    {next : A → Outcome B}
    → Ends P first
    → ((a : A) → P a → Ends Q (next a))
    → Ends Q (first >>= next)
Ends-step (ends p) h = h _ p
Ends-step fails h = fails
Ends-step dies h = dies

Ends-any {ℓ κ} :
    {A : Type ℓ} {B : Type κ} {Q : B → Type 0} {next : A → Outcome B} (first : Outcome A)
    → ((a : A) → Ends Q (next a))
    → Ends Q (first >>= next)
Ends-any (done a) h = h a
Ends-any fail h = fails
Ends-any die h = dies

Ends-if {ℓ} :
    {A : Type ℓ} {P : A → Type 0} {x y : Outcome A} (b : Bool)
    → Ends P x
    → Ends P y
    → Ends P (if b then x else y)
Ends-if true p q = p
Ends-if false p q = q

Ends-option {ℓ κ} :
    {A : Type ℓ} {B : Type κ} {P : B → Type 0} {x : Outcome B} {f : A → Outcome B} (o : Option A)
    → Ends P x
    → ((a : A) → Ends P (f a))
    → Ends P (elim o [ none ↦ x | some a ↦ f a ])
Ends-option none p h = p
Ends-option (some a) p h = h a

Ends-list {ℓ κ} :
    {A : Type ℓ} {B : Type κ} {P : B → Type 0} {x : Outcome B} {f : A → List A → Outcome B}
    (l : List A)
    → Ends P x
    → ((a : A) (rest : List A) → Ends P (f a rest))
    → Ends P (elim l [ [] ↦ x | a ∷ rest ↦ f a rest ])
Ends-list [] p h = p
Ends-list (a ∷ rest) p h = h a rest

-- The head of the program: the test of the architecture, the load of the number, and entries.
pub record HasTable (arch : ℕ) (head : FilterBlock) : Type 0 where
  pub linked : IsLinked head
  pub entries : List Entry
  pub shape : code head ≡ head_code arch entries

entries_code-snoc :
    (es : List Entry) (e : Entry) → entries_code es ++ entry_code e ≡ entries_code (es ++ (e ∷ []))
entries_code-snoc [] (allowed nr) = unfold bpf_allow_syscall in refl
entries_code-snoc [] (checked nr id) = unfold bpf_allow_syscall_args in refl
entries_code-snoc (first ∷ es) e =
    append_assoc (entry_code first) (entries_code es) (entry_code e)
    ∙ ap (◌++◌ (entry_code first)) (entries_code-snoc es e)

head_code-snoc :
    (arch : ℕ) (es : List Entry) (e : Entry)
    → head_code arch es ++ entry_code e ≡ head_code arch (es ++ (e ∷ []))
head_code-snoc arch es e =
    append_assoc (bpf_validate_arch arch) (bpf_load_syscall_nr ∷ entries_code es) (entry_code e)
    ∙ ap (λ p. bpf_validate_arch arch ++ (bpf_load_syscall_nr ∷ p)) (entries_code-snoc es e)

module _ (arch : ℕ) where
  Ends-Appended :
      (front : List Instr) (es : List Entry) (e : Entry) (r : Outcome FilterBlock)
      → front ≡ head_code arch es
      → Appended front (entry_code e) r
      → Ends (HasTable arch) r
  Ends-Appended front es e (done head) shape (linked, _, longer) = ends (record {
    linked = linked;
    entries = es ++ (e ∷ []);
    shape = longer ∙ ap (λ p. p ++ entry_code e) shape ∙ head_code-snoc arch es e;
  })
  Ends-Appended front es e fail shape a = fails
  Ends-Appended front es e die shape a = dies

  -- An entry comes behind the others.
  append-entry :
      (head : FilterBlock) (e : Entry)
      → HasTable arch head
      → Ends (HasTable arch) (append_filter_block head (entry_code e))
  append-entry head e h =
      Ends-Appended (code head) h.entries e _ h.shape
        (append_filter_block-Appended head (entry_code e) h.linked)

  -- The first two blocks.
  abbrev IsFirst : FilterBlock → Type 0
  IsFirst head = IsLinked head × (code head ≡ bpf_validate_arch arch)

  append_filter_block-IsFirst :
      Ends IsFirst (append_filter_block new_filter_block (bpf_validate_arch arch))
  append_filter_block-IsFirst = rw (append_filter_block-new (bpf_validate_arch arch)) (
      ends
        (first_block-IsLinked (bpf_validate_arch arch), code-first_block (bpf_validate_arch arch)))

  Ends-second :
      (front : List Instr) (r : Outcome FilterBlock)
      → front ≡ bpf_validate_arch arch
      → Appended front (bpf_load_syscall_nr ∷ []) r
      → Ends (HasTable arch) r
  Ends-second front (done head) shape (linked, _, longer) = ends (record {
    linked = linked;
    entries = [];
    shape = longer ∙ ap (λ p. p ++ (bpf_load_syscall_nr ∷ [])) shape;
  })
  Ends-second front fail shape a = fails
  Ends-second front die shape a = dies

  module _ (syscall_table : List SyscallEntry) (constant_table : List ConstantEntry)
      (fopen : Bytes → Option File) (filteropts : FilterOptions) where
    abbrev IsBuilt : Compilation → Type 0
    IsBuilt c = HasTable arch c.head

    abbrev IsBuiltPair : Compilation × Bool → Type 0
    IsBuiltPair r = HasTable arch r.0.head

    allow_syscalls-HasTable :
        (names : List Bytes) (head : FilterBlock)
        → HasTable arch head
        → Ends
            (HasTable arch)
            (allow_syscalls syscall_table constant_table fopen filteropts names head)
    unfolding allow_syscalls append_allow_syscall
    allow_syscalls-HasTable [] head h = ends h
    allow_syscalls-HasTable (name ∷ names) head h =
        Ends-step (append-entry head (allowed (number_or (lookup_syscall syscall_table name))) h)
          (λ head' h'. allow_syscalls-HasTable names head' h')

    add_syscall-IsBuilt :
        (c : Compilation) (name line : Bytes) (nr : ℕ)
        → IsBuilt c
        → Ends IsBuilt (add_syscall syscall_table constant_table fopen filteropts c name line nr)
    unfolding add_syscall append_allow_syscall
    add_syscall-IsBuilt c name line nr h =
        Ends-if (streq line (codes "1"))
          (Ends-step (append-entry c.head (allowed nr) h) (λ head' h'. ends h'))
          (Ends-step
            (append-entry c.head (checked nr (unchecked_id (bpf_label_id c.labels name).1)) h)
            (λ head' h'. Ends-any _ (λ r. ends h')))

    compile_line-IsBuilt :
        (c : Compilation) (state : ParserState) (line : Bytes)
        → IsBuilt c
        → Ends IsBuiltPair (compile_line syscall_table constant_table fopen filteropts c state line)
    unfolding compile_line
    compile_line-IsBuilt c state line h = Ends-option (strsep b':' line).1 fails (λ rest.
        Ends-list (strip rest) fails (λ x policy_line.
          Ends-option (lookup_syscall syscall_table (strip (strsep b':' line).0))
            (Ends-if filteropts.allow_logging (ends h) fails)
            (λ found.
              Ends-any (insert_and_check_duplicate_syscall c.previous_syscalls state found.1) (λ r.
                Ends-step (add_syscall-IsBuilt _ _ (x ∷ policy_line) found.0 h)
                  (λ c' h'. ends h')))))

    -- A function for included files that keeps the table.
    abbrev KeepsTable : (Bytes → File → Compilation → Outcome Compilation) → Type 0
    KeepsTable included =
        (name : Bytes) (file : File) (c : Compilation)
        → IsBuilt c
        → Ends IsBuilt (included name file c)

    module _ (included : Bytes → File → Compilation → Outcome Compilation) (level : ℕ)
        (keeps : KeepsTable included) where
      compile_statement-IsBuilt :
          (c : Compilation) (line : Bytes)
          → IsBuilt c
          → Ends IsBuiltPair (
              compile_statement syscall_table constant_table fopen filteropts included level c line)
      unfolding compile_statement
      compile_statement-IsBuilt c line h =
          Ends-if (starts_with (codes "@frequency") line) (ends h) (
            Ends-option (parse_include_statement line level) fails (λ filename.
              Ends-option (fopen filename) fails
                (λ file. Ends-step (keeps filename file c h) (λ c' h'. ends h'))))

      compile_stripped-IsBuilt :
          (c : Compilation) (state : ParserState) (line : Bytes)
          → IsBuilt c
          → Ends IsBuiltPair (
              compile_stripped syscall_table constant_table fopen filteropts included level c state
                line)
      unfolding compile_stripped
      compile_stripped-IsBuilt c state [] h = ends h
      compile_stripped-IsBuilt c state (x ∷ s) h = Ends-if (x == b'#') (ends h) (
          Ends-if (x == b'@') (compile_statement-IsBuilt c (x ∷ s) h)
            (compile_line-IsBuilt c state (x ∷ s) h))

      compile_lines-IsBuilt :
          (lines : List Bytes) (state : ParserState) (ret : Bool) (c : Compilation)
          → IsBuilt c
          → Ends IsBuiltPair (
              compile_lines syscall_table constant_table fopen filteropts included level state ret
                lines c)
      unfolding compile_lines
      compile_lines-IsBuilt [] state ret c h = ends h
      compile_lines-IsBuilt (line ∷ lines) state ret c h =
          Ends-step (compile_stripped-IsBuilt c _ (strip line) h)
            (λ r h'. compile_lines-IsBuilt lines _ _ r.0 h')

    compile_file-KeepsTable :
        (depth level : ℕ)
        → KeepsTable (compile_file syscall_table constant_table fopen filteropts depth level)
    unfolding compile_file
    compile_file-KeepsTable zero level name file c h = fails
    compile_file-KeepsTable (suc depth) level name file c h =
        Ends-step
          (compile_lines-IsBuilt _ level (compile_file-KeepsTable depth (level + 1))
            (read_all file.stream) _ true c h)
          (λ r h'. Ends-if (file.feof && r.1) (ends h') fails)

    compile_entries-IsBuilt :
        (name : Bytes) (file : File)
        → Ends IsBuilt
            (compile_entries syscall_table constant_table fopen filteropts arch name file)
    unfolding compile_entries
    compile_entries-IsBuilt name file =
        Ends-step append_filter_block-IsFirst (λ head₁ (linked, shape).
          Ends-step
            (Ends-second (code head₁) _ shape
              (append_filter_block-Appended head₁ (bpf_load_syscall_nr ∷ []) linked))
            (λ head₂ h.
              Ends-step
                (Ends-if filteropts.allow_syscalls_for_logging
                  (allow_syscalls-HasTable log_syscalls head₂ h) (ends h))
                (λ head h'. compile_file-KeepsTable 2 0 name file _ h')))

    pub compile_entries-HasTable :
        (name : Bytes) (file : File) (c : Compilation)
        → compile_entries syscall_table constant_table fopen filteropts arch name file ≡ done c
        → HasTable arch c.head
    compile_entries-HasTable name file c e =
        ended (
          subst (λ (r : Outcome Compilation). Ends IsBuilt r) e (compile_entries-IsBuilt name file))

    -- Whatever a policy says: if it compiles, the head of the program kills every call of another
    -- architecture, at its first instructions and whatever stands behind the head. It is the test of
    -- the architecture, the load of the number and the entries of the system calls.
    pub compile_entries-kills :
        (name : Bytes) (file : File) (c : Compilation) (d : Data) (rest : List Instr) (s : State)
        → compile_entries syscall_table constant_table fopen filteropts arch name file ≡ done c
        → lo_word d.arch ≢ arch % 2 ^ 32
        → ((es : List Entry) × (code c.head ≡ head_code arch es))
          × (exec labelled d (code c.head ++ rest) 0 s ≡ some Ret.kill)
    compile_entries-kills name file c d rest s e foreign =
        let table : HasTable arch c.head = compile_entries-HasTable name file c e in
        let tests : bpf_validate_arch arch
              ++ ((bpf_load_syscall_nr ∷ entries_code table.entries) ++ rest)
            ≡ code c.head ++ rest =
          sym (
            ap (λ p. p ++ rest) table.shape
            ∙ append_assoc (bpf_validate_arch arch)
                (bpf_load_syscall_nr ∷ entries_code table.entries) rest) in
        (
          (table.entries, table.shape),
          ap (λ p. exec labelled d p 0 s) (sym tests)
              ∙ foreign-exec labelled d arch
                  ((bpf_load_syscall_nr ∷ entries_code table.entries) ++ rest) s foreign,
        )
