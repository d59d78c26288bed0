-- ===== src/Tests.antt =====
-- The theorems at concrete inputs, and runs of the code.
pub mod JailCalls
pub mod JailBytes
pub mod Variables
pub mod Policies
pub mod ConfigFiles
pub mod ElfFiles
pub mod ConfigOptions
use minijail.Base.{
  Bytes, Option, false, ◌≤◌, ℕ, zero, suc, true, none, ◌+◌, ◌^◌, List, [], ◌∷◌, ◌++◌, some, length,
  codes, streq, starts_with, ◌≡◌, ◌≢◌, refl, sym, ap, some_inj, arith,
}
use minijail.Bpf.{
  Instr, Op, set_bpf_instr, set_bpf_stmt, set_bpf_lbl, set_bpf_jump_lbl, set_bpf_ret_kill,
  set_bpf_ret_allow, bpf_arg_comp, bpf_arg_comp_len, bpf_validate_arch, bpf_allow_syscall,
  bpf_allow_syscall_args, bpf_load_syscall_nr, bpf_load_arg, bpf_comp_jeq64, bpf_comp_jset64, skip,
}
use minijail.Bpf.ArgComp.{bpf_arg_comp-holds, length-bpf_arg_comp}
use minijail.Bpf.Dispatch.{Entry, allowed, checked, head_code, dispatch-exec}
use minijail.Bpf.Labels.Placed.{IsFresh, IsInstr, All}
use minijail.Bpf.Code
use minijail.Bpf.Labels.{
  bpf_maxinsns, Labels, new_label, find_label, bpf_label_id, ok, bpf_resolve_jumps, resolve_from,
  resolve_instr, resolve_jump, place_label,
}
use minijail.Bpf.Labels.Resolve.{bpf_resolve_jumps-exec}
use minijail.Bpf.Labels.Table.{bpf_label_id-Interned, InternedOrFull}
use minijail.Bpf.Machine.{Data, State, kernel, labelled, distance, exec, loaded, start}
use minijail.Bpf.Ret
use minijail.Filter.Blocks.{
  FilterBlock, new_filter_block, append_ret_errno, append_filter_block, append_behind,
  extend_filter_block_list, flatten_block_list, flatten_blocks, write_instrs,
}
use minijail.Filter.Blocks.Flatten.{code, IsMeasured, flatten_block_list-flattened}
use minijail.Filter.Blocks.Linked.{IsLinked, Appended, first_block, filter_blocks-IsLinked}
use minijail.Filter.File.{FilterOptions, File, Compilation, link, compile_file}
use minijail.Filter.File.Depth.{compile_file-depth}
use minijail.Filter.File.Link.{link-exec}
use minijail.Filter.Line.{
  ret_kill, str_to_op, parse_argidx, split_atom, parse_atom, compile_atom, compile_errno,
  compile_atoms, compile_group, compile_groups, append_default, split_line, entry_block,
  compile_filter_line, compile_policy_line,
}
use minijail.Filter.Line.Run.{IsData}
use minijail.Filter.Line.Verdict.{
  policy_verdict, policy_in_range, compile_policy_line-verdict, compile_policy_line-IsLinked,
}
use minijail.Filter.Names.{
  digits_onto, decimal, get_label_id, group_end_name, success_name, group_end_lbl, success_lbl,
}
use minijail.Filter.Outcome.{Outcome, done}
use minijail.Util.Number.{strtol, strtoul}
use minijail.Util.Buffer.{consumestr, consumestr-append}
use minijail.Util.Size.{negative, prefix_multiplier, errno_behind, parse_size, multiplier_of}
use minijail.Util.Constant.{
  parse_constant, parse_terms, paren_term, close_term, single_term, single_constant,
  parse_single_constant, starts_with_paren, behind_paren, drop_tilde, parsed, failed, out_of_fuel,
}
use minijail.Util.Constant.Fuel.{parse_constant-returns}
use minijail.Util.Syscall.{SyscallEntry, ConstantEntry, lookup_constant}
use minijail.Util.Text.{
  strip, tokenize, strstr, tokenize_all, close_paren, strtok, span_token, tokens,
  tokenize_parenthesized_expression,
}
use minijail.Util.Text.Paren.{Balanced, tokenize_parenthesized_expression-Balanced}
use minijail.Util.Text.Strip.{Stripped, strip-Stripped}
use minijail.Util.Text.Tokens.{join, AllLack, tokenize_all-join}

-- A call of number 16 with the arguments 1, 2 ^ 32 + 5, 0 and so on.
abbrev args : ℕ → ℕ
args zero = 1
args (suc zero) = 2 ^ 32 + 5
args _ = 0

abbrev call : Data
call = record { nr = 16; arch = 0xC000003E; instruction_pointer = 0; args = args }

abbrev kill_or_allow : List Instr
kill_or_allow = set_bpf_ret_kill ∷ set_bpf_lbl 0 ∷ set_bpf_ret_allow ∷ []

bpf_arg_comp-holds_example :
    (acc' : ℕ) × (exec labelled call (bpf_arg_comp Op.gt 1 7 0 ++ kill_or_allow) 0 start
      ≡ exec labelled call
          (set_bpf_jump_lbl 0 ∷ kill_or_allow)
          skip
          (record (loaded call 1 start) { acc = acc' }))
bpf_arg_comp-holds_example =
    bpf_arg_comp-holds labelled call 1 start 7 (omega arith) (omega arith) (omega arith) Op.gt 0
      kill_or_allow (λ e. cc)

length-bpf_arg_comp_example : length (bpf_arg_comp Op.le 0 5 3) ≡ bpf_arg_comp_len Op.le 5
length-bpf_arg_comp_example = length-bpf_arg_comp Op.le 0 5 3 (omega arith)

label_behind_kill : distance 0 kill_or_allow ≡ some 1
unfolding distance
label_behind_kill = refl

abbrev two_entries : List Entry
two_entries = allowed 3 ∷ checked 16 0 ∷ []

dispatch-exec_example :
    exec labelled call (head_code 0xC000003E two_entries ++ kill_or_allow) 0 start
    ≡ exec labelled call kill_or_allow 1 (record start { acc = 16 })
dispatch-exec_example =
    dispatch-exec (λ id. 1) call 0xC000003E two_entries kill_or_allow start (label_behind_kill, tt)

abbrev one_label : Labels
one_label = new_label (codes "16_success") ∷ []

abbrev jump_over_kill : List Instr
jump_over_kill = set_bpf_jump_lbl 0 ∷ kill_or_allow

-- The jump passes over one instruction, and the label becomes a jump to the next one.
abbrev resolved : List Instr
resolved =
    set_bpf_stmt Code.ja 1 ∷ set_bpf_ret_kill ∷ set_bpf_stmt Code.ja 0 ∷ set_bpf_ret_allow ∷ []

abbrev placed_label : Labels
placed_label = record (new_label (codes "16_success")) { location = 2 } ∷ []

resolves : bpf_resolve_jumps one_label jump_over_kill ≡ ok (placed_label, resolved)
unfolding bpf_resolve_jumps resolve_from resolve_instr resolve_jump place_label
resolves = refl

one_label-IsFresh : IsFresh one_label
one_label-IsFresh zero l e = sym (ap (λ x. x.location) (some_inj e))
one_label-IsFresh (suc id) l e = cc

set_bpf_instr-IsInstr : (code k jt jf : ℕ) → IsInstr (set_bpf_instr code k jt jf)
set_bpf_instr-IsInstr code k jt jf = record { jt_fits = omega arith; jf_fits = omega arith }

jump_over_kill-AreInstrs : All IsInstr jump_over_kill
jump_over_kill-AreInstrs = (
  set_bpf_instr-IsInstr Code.ja 0 0xff 0xff,
  (
    set_bpf_instr-IsInstr Code.ret Ret.kill 0 0,
    (set_bpf_instr-IsInstr Code.ja 0 0xfe 0xfe, (set_bpf_instr-IsInstr Code.ret Ret.allow 0 0, tt)),
  ),
)

bpf_resolve_jumps-exec_example :
    (length resolved ≡ length jump_over_kill)
    × ((d : Data) (k : ℕ) (s : State)
        → exec kernel d resolved k s ≡ exec labelled d jump_over_kill k s)
bpf_resolve_jumps-exec_example =
    bpf_resolve_jumps-exec one_label placed_label jump_over_kill resolved one_label-IsFresh
      jump_over_kill-AreInstrs resolves

bpf_label_id-Interned_example :
    InternedOrFull one_label (codes "16_1_end") (bpf_label_id one_label (codes "16_1_end"))
bpf_label_id-Interned_example = bpf_label_id-Interned one_label (codes "16_1_end") (omega arith)

abbrev three_blocks : FilterBlock
three_blocks = record {
  instrs = some (set_bpf_ret_kill ∷ []);
  next = [] ∷ (set_bpf_lbl 0 ∷ set_bpf_ret_allow ∷ []) ∷ [];
  has_last = true;
  total_len = 3;
}

flatten_block_list-flattened_example :
    flatten_block_list three_blocks (jump_over_kill ++ (set_bpf_ret_kill ∷ [])) 1 5
    ≡ some (jump_over_kill ++ (set_bpf_ret_kill ∷ []))
flatten_block_list-flattened_example =
    flatten_block_list-flattened three_blocks (set_bpf_jump_lbl 0 ∷ []) kill_or_allow
      (set_bpf_ret_kill ∷ []) 5 refl refl (omega arith)

three_blocks-IsLinked : IsLinked three_blocks
three_blocks-IsLinked = record { filled = λ e. cc; last = refl; measured = refl }

three_blocks-next : three_blocks.next ≢ []
three_blocks-next e = cc

filter_blocks-IsLinked_example :
    (append_filter_block new_filter_block kill_or_allow ≡ done (first_block kill_or_allow))
    × IsLinked (first_block kill_or_allow)
    × Appended (code three_blocks) kill_or_allow (append_filter_block three_blocks kill_or_allow)
    × IsLinked (extend_filter_block_list three_blocks three_blocks)
    × (code (extend_filter_block_list three_blocks three_blocks)
        ≡ code three_blocks ++ code three_blocks)
filter_blocks-IsLinked_example =
    filter_blocks-IsLinked three_blocks three_blocks kill_or_allow three_blocks-IsLinked
      three_blocks-IsLinked three_blocks-next

-- A list of one block leaves `last` NULL: the next list takes its place, but `total_len` counts on.
abbrev one_block : FilterBlock
one_block = first_block (set_bpf_ret_kill ∷ [])

loses_a_block :
    let list =
      extend_filter_block_list (extend_filter_block_list three_blocks one_block) one_block in
    (code list ≡ set_bpf_ret_kill ∷ set_bpf_ret_kill ∷ []) × (list.total_len ≡ 5)
unfolding extend_filter_block_list
loses_a_block = (refl, refl)

abbrev two_constants : List ConstantEntry
two_constants =
    record { name = codes "PROT_READ"; value = 1 }
    ∷ record { name = codes "PROT_EXEC"; value = 4 }
    ∷ []

parse_constant-returns_example :
    parse_constant two_constants (codes "~(PROT_EXEC|1)|2") ≢ out_of_fuel
parse_constant-returns_example = parse_constant-returns two_constants (codes "~(PROT_EXEC|1)|2")

strip-Stripped_example : Stripped (codes " read: 1 \n") (strip (codes " read: 1 \n"))
strip-Stripped_example = strip-Stripped (codes " read: 1 \n")

tokenize_all-join_example :
    (join (codes "||") (tokenize_all (some (codes "a && b||c|d||")) (codes "||"))
      ≡ codes "a && b||c|d||")
    × AllLack (codes "||") (tokenize_all (some (codes "a && b||c|d||")) (codes "||"))
tokenize_all-join_example = tokenize_all-join b'|' (codes "|") (codes "a && b||c|d||")

closes : tokenize_parenthesized_expression (codes "(1|(2))|3") ≡ some (codes "1|(2)", codes "|3")
unfolding tokenize_parenthesized_expression close_paren
closes = refl

tokenize_parenthesized_expression-Balanced_example :
    (codes "(1|(2))|3" ≡ b'(' ∷ (codes "1|(2)" ++ (b')' ∷ codes "|3")))
    × Balanced 1 (codes "1|(2)") 1
tokenize_parenthesized_expression-Balanced_example =
    tokenize_parenthesized_expression-Balanced (codes "(1|(2))|3") (codes "1|(2)") (codes "|3")
      closes

-- Runs of `parse_constant`: a term in parentheses, and two strings that end in a pipe. The one
-- behind a number is accepted, the one behind a parenthesis is not.
constants_or :
    (parse_constant two_constants (codes "PROT_READ|~(0xff|PROT_EXEC)") ≡ parsed 0xffffffffffffff01)
    × (parse_constant two_constants (codes "1|") ≡ parsed 1)
    × (parse_constant two_constants (codes "(1)|") ≡ failed)
unfolding parse_constant parse_terms paren_term close_term single_term single_constant
    parse_single_constant lookup_constant starts_with_paren behind_paren drop_tilde tokenize strstr
    starts_with streq tokenize_parenthesized_expression close_paren
constants_or = (refl, refl, refl)

-- A line with two groups and an errno, and its block.
abbrev line : Bytes
line = codes "arg0 == 2 || arg1 & PROT_EXEC; return 13"

from_done : Outcome (FilterBlock × Labels) → FilterBlock × Labels
from_done (done r) = r
from_done _ = (new_filter_block, [])

abbrev compiled : FilterBlock × Labels
compiled = from_done (compile_policy_line two_constants 16 line 0 one_label ret_kill)

compiles : compile_policy_line two_constants 16 line 0 one_label ret_kill ≡ done compiled
unfolding from_done compile_policy_line compile_filter_line split_line strtok span_token entry_block
    append_filter_block append_behind compile_groups compile_group compile_atoms compile_atom
    parse_atom split_atom parse_argidx str_to_op bpf_arg_comp bpf_load_arg bpf_comp_jeq64
    bpf_comp_jset64 group_end_lbl success_lbl group_end_name success_name decimal digits_onto
    get_label_id bpf_label_id find_label streq starts_with tokenize_all tokens tokenize strstr
    parse_constant parse_terms single_term single_constant parse_single_constant lookup_constant
    starts_with_paren drop_tilde append_default compile_errno append_ret_errno strtol
compiles = refl

call-IsData : IsData call
call-IsData zero h = omega arith
call-IsData (suc zero) h = omega arith
call-IsData (suc (suc i)) h = omega arith

in_range : policy_in_range two_constants line ≡ true
unfolding compile_policy_line split_line strtok span_token parse_atom split_atom parse_argidx
    str_to_op streq starts_with tokenize_all tokens tokenize strstr parse_constant parse_terms
    single_term single_constant parse_single_constant lookup_constant starts_with_paren drop_tilde
    strtol
in_range = refl

compile_policy_line-verdict_example :
    exec labelled call (code compiled.0 ++ kill_or_allow) 0 start
    ≡ some (policy_verdict two_constants call line ret_kill)
compile_policy_line-verdict_example =
    compile_policy_line-verdict two_constants 16 line 0 one_label ret_kill compiled call
      kill_or_allow start compiles (omega arith) (omega arith) in_range call-IsData

compile_policy_line-IsLinked_example : IsLinked compiled.0 × (compiled.0.next ≢ [])
compile_policy_line-IsLinked_example =
    compile_policy_line-IsLinked two_constants 16 line 0 one_label ret_kill compiled compiles
      (omega arith) (omega arith)

-- The largest number is taken for an error: with errno 0 the call returns 0 and stores nothing.
largest_size : parse_size 0 (codes "18446744073709551615") ≡ negative 0
unfolding parse_size errno_behind multiplier_of prefix_multiplier strtoul
largest_size = refl

consumestr-append_example :
    (consumestr (codes "ab" ++ (0 ∷ codes "cd")) ≡ some (codes "ab" ++ (0 ∷ []), codes "cd"))
    × (consumestr (codes "ab") ≡ none)
consumestr-append_example = consumestr-append (codes "ab") (codes "cd") ((λ e. cc), ((λ e. cc), tt))

-- A jump table and one policy, put together.
abbrev table_block : FilterBlock
table_block = first_block (set_bpf_jump_lbl 0 ∷ set_bpf_ret_kill ∷ [])

abbrev policy_block : FilterBlock
policy_block = first_block (set_bpf_lbl 0 ∷ set_bpf_ret_allow ∷ [])

abbrev no_files : Bytes → Option File
no_files name = none

abbrev killing : FilterOptions
killing = record {
  action = ret_kill;
  allow_logging = false;
  allow_syscalls_for_logging = false;
  allow_duplicate_syscalls = false;
}

abbrev one_syscall : List SyscallEntry
one_syscall = record { name = codes "ioctl"; nr = 16 } ∷ []

links :
    link one_syscall two_constants no_files killing table_block policy_block one_label
    ≡ done resolved
unfolding link flatten_block_list flatten_blocks write_instrs bpf_resolve_jumps resolve_from
    resolve_instr resolve_jump place_label
links = refl

link-exec_example :
    (length resolved ≤ bpf_maxinsns)
    × (length resolved ≡ table_block.total_len + policy_block.total_len)
    × ((d : Data) (k : ℕ) (s : State)
        → exec kernel d resolved k s ≡ exec labelled d (code table_block ++ code policy_block) k s)
link-exec_example =
    link-exec one_syscall two_constants no_files killing table_block policy_block one_label resolved
      refl refl one_label-IsFresh jump_over_kill-AreInstrs links

abbrev policy_file : File
policy_file = record { stream = codes "ioctl: 1\n" ∷ codes "@include ./more\n" ∷ []; feof = true }

abbrev nothing_compiled : Compilation
nothing_compiled = record {
  head = new_filter_block;
  arg_blocks = none;
  labels = [];
  previous_syscalls = none ∷ [];
}

abbrev more_files : Bytes → Option File
more_files name = some (record { stream = codes "# nothing\n" ∷ []; feof = true })

compile_file-depth_example :
    compile_file one_syscall two_constants more_files killing 5 0
      (codes "policy")
      policy_file
      nothing_compiled
    ≡ compile_file one_syscall two_constants more_files killing 2 0
        (codes "policy")
        policy_file
        nothing_compiled
compile_file-depth_example =
    compile_file-depth one_syscall two_constants more_files killing 3 0 (codes "policy") policy_file
      nothing_compiled
