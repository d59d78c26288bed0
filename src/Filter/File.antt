-- ===== src/Filter/File.antt =====
-- A whole policy: `parse_include_statement`, `compile_file` and `compile_filter`.
pub mod Depth
pub mod Link
pub mod Table
pub mod Foreign
use minijail.Base.{
  ℕ, zero, suc, ◌+◌, ◌-◌, ◌%◌, ◌^◌, Bool, true, false, not, ◌&&◌, ◌||◌, List, [], ◌∷◌, Option, none,
  some, if◌then◌else◌, ◌==◌, ltb, get_elem?, set, Bytes, codes, streq, starts_with,
}
use minijail.Bpf.{
  Instr, bpf_validate_arch, bpf_load_syscall_nr, bpf_allow_syscall_args, set_bpf_instr,
}
use minijail.Bpf.Labels.{Labels, bpf_label_id, bpf_resolve_jumps, bpf_maxinsns, Result, ok, err}
use minijail.Filter.Blocks.{
  FilterBlock, new_filter_block, append_filter_block, extend_filter_block_list,
  append_allow_syscall, append_ret_kill, append_ret_kill_process, append_ret_trap, append_ret_log,
  flatten_block_list,
}
use minijail.Filter.Line.{
  BlockAction, ret_kill, ret_kill_process, ret_trap, ret_log, compile_policy_line,
}
use minijail.Filter.Outcome.{Outcome, done, fail, die, ◌>>=◌}
use minijail.Util.Lines.{read_all}
use minijail.Util.Syscall.{SyscallEntry, ConstantEntry, lookup_syscall}
use minijail.Util.Text.{strip, strsep}

-- struct parser_state
pub record ParserState : Type 0 where
  pub filename : Bytes
  pub line_number : ℕ

-- struct filter_options
pub record FilterOptions : Type 0 where
  pub action : BlockAction
  pub allow_logging : Bool
  pub allow_syscalls_for_logging : Bool
  pub allow_duplicate_syscalls : Bool

-- A FILE that is open for reading: its lines, and whether they end at the end of the file and not
-- with an error.
pub record File : Type 0 where
  pub stream : List Bytes
  pub feof : Bool

-- What `compile_file` changes through its pointers: `head`, `*arg_blocks`, `labels` and
-- `previous_syscalls`. A NULL `*arg_blocks` is none.
pub record Compilation : Type 0 where
  pub head : FilterBlock
  pub arg_blocks : Option FilterBlock
  pub labels : Labels
  pub previous_syscalls : List (Option ParserState)

-- log_syscalls of util.c on x86_64, other than Android.
abbrev pub log_syscalls : List Bytes
log_syscalls = codes "socket" ∷ codes "connect" ∷ codes "sendto" ∷ codes "writev" ∷ []

-- `filename[i]` is `c`.
unfoldable pub byte_is : Bytes → ℕ → ℕ → Bool
byte_is s i c = elim (get_elem? s i) [ none ↦ false | some x ↦ x == c ]

unfoldable pub is_implicit_relative_path : Bytes → Bool
unfolding byte_is
is_implicit_relative_path filename =
    not (byte_is filename 0 b'/')
    && (not (byte_is filename 0 b'.') || not (byte_is filename 1 b'/'))

-- The name of the included file, none for -1.
unfoldable pub parse_include_statement : Bytes → ℕ → Option Bytes
unfolding byte_is
parse_include_statement policy_line include_level =
    if not (starts_with (codes "@include") policy_line)
    then none
    else if not (byte_is policy_line 8 b' ')
    then none
    else if ltb 0 include_level
    then none
    else let (_, statement) = strsep b' ' policy_line in
      elim statement [
        | none ↦ none
        | some filename ↦ if is_implicit_relative_path filename then none else some filename
      ]

-- The new array, and whether the system call is new.
unfoldable pub insert_and_check_duplicate_syscall :
    List (Option ParserState) → ParserState → ℕ → Outcome (List (Option ParserState) × Bool)
insert_and_check_duplicate_syscall previous_syscalls state ind =
    elim (get_elem? previous_syscalls ind) [
      | none ↦ die
      | some none ↦ done (set previous_syscalls ind (some state), true)
      | some (some _) ↦ done (previous_syscalls, false)
    ]

-- `nr` of a name that may not be in the table: -1 becomes an unsigned int.
abbrev number_or : Option (ℕ × ℕ) → ℕ
number_or none = 2 ^ 32 - 1
number_or (some (nr, _)) = nr

-- The id of `bpf_label_id` as an unsigned int, -1 included.
abbrev pub unchecked_id : Option ℕ → ℕ
unchecked_id none = 2 ^ 32 - 1
unchecked_id (some id) = id

abbrev pub extend_arg_blocks : Option FilterBlock → FilterBlock → FilterBlock
extend_arg_blocks none block = block
extend_arg_blocks (some arg_blocks) block = extend_filter_block_list arg_blocks block

-- A NULL list of blocks is the list with no block.
abbrev pub blocks_or_none : Option FilterBlock → FilterBlock
blocks_or_none none = new_filter_block
blocks_or_none (some blocks) = blocks

abbrev pub nothing_seen : List SyscallEntry → List (Option ParserState)
nothing_seen [] = []
nothing_seen (_ ∷ table) = none ∷ nothing_seen table

abbrev pub zeros : ℕ → List Instr
zeros zero = []
zeros (suc n) = set_bpf_instr 0 0 0 0 ∷ zeros n

abbrev pub linked : Result (Labels × List Instr) → Outcome (List Instr)
linked (err _) = fail
linked (ok (_, final_filter)) = done final_filter

-- The tables of the build, the files that fopen(3) opens, and the options.
module _ (syscall_table : List SyscallEntry) (constant_table : List ConstantEntry)
    (fopen : Bytes → Option File) (filteropts : FilterOptions) where
  unfoldable pub allow_syscalls : List Bytes → FilterBlock → Outcome FilterBlock
  allow_syscalls [] head = done head
  allow_syscalls (name ∷ names) head =
      append_allow_syscall head (number_or (lookup_syscall syscall_table name))
      >>= allow_syscalls names

  abbrev pub allow_logging_syscalls : FilterBlock → Outcome FilterBlock
  allow_logging_syscalls head = allow_syscalls log_syscalls head

  -- A system call with the policy `policy_line`: an entry in the jump table, and its block.
  unfoldable pub add_syscall : Compilation → Bytes → Bytes → ℕ → Outcome Compilation
  add_syscall c syscall_name policy_line nr =
      if streq policy_line (codes "1")
      then (append_allow_syscall c.head nr >>= λ head'. done (record c { head = head' }))
      else let (labels', label_id) = bpf_label_id c.labels syscall_name in
        let id = unchecked_id label_id in
        (append_filter_block c.head (bpf_allow_syscall_args nr id) >>= λ head'.
        compile_policy_line constant_table nr policy_line id labels' filteropts.action >>= λ r.
        done (record c {
          head = head';
          arg_blocks = some (extend_arg_blocks c.arg_blocks r.0);
          labels = r.1;
        }))

  -- A line that is not empty, a comment or a statement. The Boolean is false where `ret` is set to
  -- -1 and the loop goes on.
  unfoldable pub compile_line : Compilation → ParserState → Bytes → Outcome (Compilation × Bool)
  compile_line c state line =
      let (name, behind) = strsep b':' line in
      elim behind [
        | none ↦ fail
        | some rest ↦ elim (strip rest) [
          | [] ↦ fail
          | x ∷ policy_line ↦ elim (lookup_syscall syscall_table (strip name)) [
            | none ↦ if filteropts.allow_logging then done (c, true) else fail
            | some (nr, ind) ↦
                insert_and_check_duplicate_syscall c.previous_syscalls state ind >>= λ r.
                add_syscall (record c { previous_syscalls = r.0 }) (strip name) (x ∷ policy_line) nr
                >>= λ c'. done (c', r.1 || filteropts.allow_duplicate_syscalls)
          ]
        ]
      ]

  -- A line that begins with '@'. `included` compiles an included file.
  unfoldable pub compile_statement :
      (Bytes → File → Compilation → Outcome Compilation)
      → ℕ
      → Compilation
      → Bytes
      → Outcome (Compilation × Bool)
  compile_statement included include_level c policy_line =
      if starts_with (codes "@frequency") policy_line
      then done (c, true)
      else elim (parse_include_statement policy_line include_level) [
        | none ↦ fail
        | some filename ↦ elim (fopen filename) [
          | none ↦ fail
          | some file ↦ included filename file c >>= λ c'. done (c', true)
        ]
      ]

  -- The body of the loop of `compile_file`, at a line that is stripped.
  unfoldable pub compile_stripped :
      (Bytes → File → Compilation → Outcome Compilation)
      → ℕ
      → Compilation
      → ParserState
      → Bytes
      → Outcome (Compilation × Bool)
  compile_stripped included include_level c state [] = done (c, true)
  compile_stripped included include_level c state (x ∷ s) =
      if x == b'#'
      then done (c, true)
      else if x == b'@'
      then compile_statement included include_level c (x ∷ s)
      else compile_line c state (x ∷ s)

  -- The loop: `ret` is false once a line has set it to -1.
  unfoldable pub compile_lines :
      (Bytes → File → Compilation → Outcome Compilation)
      → ℕ
      → ParserState
      → Bool
      → List Bytes
      → Compilation
      → Outcome (Compilation × Bool)
  compile_lines included include_level state ret [] c = done (c, ret)
  compile_lines included include_level state ret (line ∷ lines) c =
      let state' = record state { line_number = (state.line_number + 1) % 2 ^ 64 } in
      compile_stripped included include_level c state' (strip line) >>= λ r.
      compile_lines included include_level state' (ret && r.1) lines r.0

  -- 0 or -1 at the end of the loop.
  abbrev pub file_result : Bool → Compilation × Bool → Outcome Compilation
  file_result feof (c, ret) = if feof && ret then done c else fail

  -- `depth` bounds the calls of the function by itself, which end at `include_level` 1.
  unfoldable pub compile_file : ℕ → ℕ → Bytes → File → Compilation → Outcome Compilation
  compile_file zero include_level filename file c = fail
  compile_file (suc depth) include_level filename file c =
      compile_lines (compile_file depth (include_level + 1)) include_level
        (record { filename = filename; line_number = 0 }) true (read_all file.stream) c
      >>= file_result file.feof

  -- What runs if no entry of the jump table is taken.
  unfoldable pub append_fall_through : FilterBlock → BlockAction → Outcome FilterBlock
  append_fall_through head ret_kill = append_ret_kill head
  append_fall_through head ret_kill_process = append_ret_kill_process head
  append_fall_through head ret_trap = append_ret_trap head
  append_fall_through head ret_log = if filteropts.allow_logging then append_ret_log head else fail

  -- The program of `prog`, if the policy compiles. The number of system calls is that of the table,
  -- MINIJAIL_ARCH_NR is `arch`, and the buffer of calloc(3) is zero.
  unfoldable pub compile_entries : ℕ → Bytes → File → Outcome Compilation
  compile_entries arch filename file =
      append_filter_block new_filter_block (bpf_validate_arch arch) >>= λ head₁.
      append_filter_block head₁ (bpf_load_syscall_nr ∷ []) >>= λ head₂.
      (if filteropts.allow_syscalls_for_logging then allow_logging_syscalls head₂ else done head₂)
      >>= λ head. compile_file 2 0 filename file (record {
        head = head;
        arg_blocks = none;
        labels = [];
        previous_syscalls = nothing_seen syscall_table;
      })

  unfoldable pub link : FilterBlock → FilterBlock → Labels → Outcome (List Instr)
  link head arg_blocks labels =
      let final_filter_len = head.total_len + arg_blocks.total_len in
      if ltb bpf_maxinsns final_filter_len
      then fail
      else elim (flatten_block_list head (zeros final_filter_len) 0 final_filter_len) [
        | none ↦ fail
        | some filter ↦
            elim (flatten_block_list arg_blocks filter head.total_len final_filter_len) [
              | none ↦ fail
              | some final_filter ↦ linked (bpf_resolve_jumps labels final_filter)
            ]
      ]

  unfoldable pub compile_filter : ℕ → Bytes → Option File → Outcome (List Instr)
  compile_filter arch filename none = fail
  compile_filter arch filename (some initial_file) =
      compile_entries arch filename initial_file >>= λ c.
      append_fall_through c.head filteropts.action >>= λ head.
      link head (blocks_or_none c.arg_blocks) c.labels
