-- ===== src/Tests/Policies.antt =====
-- The theorems on whole policies at a concrete input.
use minijail.Base.{
  ◌%◌, ◌^◌, true, false, List, [], ◌∷◌, ◌++◌, Option, none, some, Bytes, codes, streq, starts_with,
  ◌≡◌, ◌≢◌, refl, arith,
}
use minijail.Bpf.{
  Instr, lo_word, set_bpf_ret_allow, bpf_validate_arch, bpf_allow_syscall, bpf_allow_syscall_args,
}
use minijail.Bpf.Dispatch.{Entry, head_code}
use minijail.Bpf.Labels.{
  bpf_label_id, find_label, bpf_resolve_jumps, resolve_from, resolve_instr, resolve_jump,
  place_label,
}
use minijail.Bpf.Machine.{Data, labelled, kernel, exec, start}
use minijail.Bpf.Ret
use minijail.Filter.Blocks.{
  new_filter_block, append_behind, append_filter_block, append_allow_syscall, append_ret_errno,
  append_ret_kill, extend_filter_block_list, write_instrs, flatten_blocks, flatten_block_list,
}
use minijail.Filter.Blocks.Flatten.{code}
use minijail.Filter.File.{
  FilterOptions, File, Compilation, insert_and_check_duplicate_syscall, add_syscall, compile_line,
  compile_stripped, compile_lines, compile_file, compile_entries, compile_filter,
  append_fall_through, link,
}
use minijail.Filter.File.Foreign.{compile_filter-kills}
use minijail.Filter.File.Table.{compile_entries-kills}
use minijail.Filter.Line.{ret_kill, compile_errno, entry_block, compile_policy_line}
use minijail.Filter.Outcome.{Outcome, done}
use minijail.Util.Constant.{
  parse_constant, parse_terms, single_term, single_constant, parse_single_constant,
  starts_with_paren, drop_tilde,
}
use minijail.Util.Lines.{getmultiline, eat_newline, drop_last, read_lines, read_all}
use minijail.Util.Number.{strtol}
use minijail.Util.Syscall.{SyscallEntry, lookup_syscall, lookup_from}
use minijail.Util.Text.{
  strip, strip_front, strip_back, strsep, strtok, span_token, tokenize, strstr,
}

abbrev two_syscalls : List SyscallEntry
two_syscalls =
    record { name = codes "read"; nr = 0 } ∷ record { name = codes "ioctl"; nr = 16 } ∷ []

abbrev policy : File
policy = record { stream = codes "read: 1" ∷ codes "ioctl: return 13" ∷ []; feof = true }

abbrev killing : FilterOptions
killing = record {
  action = ret_kill;
  allow_logging = false;
  allow_syscalls_for_logging = false;
  allow_duplicate_syscalls = false;
}

abbrev no_files : Bytes → Option File
no_files name = none

abbrev nothing : Compilation
nothing = record { head = new_filter_block; arg_blocks = none; labels = []; previous_syscalls = [] }

from_done : Outcome Compilation → Compilation
from_done (done c) = c
from_done _ = nothing

abbrev built : Compilation
built = from_done (compile_entries two_syscalls [] no_files killing 0xC000003E (codes "p") policy)

builds : compile_entries two_syscalls [] no_files killing 0xC000003E (codes "p") policy ≡ done built
unfolding from_done compile_entries compile_file compile_lines compile_stripped compile_line
    add_syscall insert_and_check_duplicate_syscall append_filter_block append_behind
    append_allow_syscall append_ret_errno extend_filter_block_list compile_policy_line compile_errno
    entry_block bpf_label_id find_label read_all read_lines getmultiline eat_newline drop_last strip
    strip_front strip_back strsep strtok span_token lookup_syscall lookup_from streq starts_with
    parse_constant parse_terms single_term single_constant parse_single_constant starts_with_paren
    drop_tilde tokenize strstr strtol
builds = refl

-- A call of i386.
abbrev foreign_call : Data
foreign_call = record { nr = 0; arch = 0x40000003; instruction_pointer = 0; args = λ i. 0 }

is_foreign : lo_word foreign_call.arch ≢ 0xC000003E % 2 ^ 32
is_foreign e = absurd (omega (arith, e))

compile_entries-kills_example :
    ((es : List Entry) × (code built.head ≡ head_code 0xC000003E es))
    × (exec labelled foreign_call (code built.head ++ (set_bpf_ret_allow ∷ [])) 0 start
        ≡ some Ret.kill)
compile_entries-kills_example =
    compile_entries-kills 0xC000003E two_syscalls [] no_files killing (codes "p") policy built
      foreign_call (set_bpf_ret_allow ∷ []) start builds is_foreign

instrs_of : Outcome (List Instr) → List Instr
instrs_of (done p) = p
instrs_of _ = []

abbrev program : List Instr
program =
    instrs_of (compile_filter two_syscalls [] no_files killing 0xC000003E (codes "p") (some policy))

compiles :
    compile_filter two_syscalls [] no_files killing 0xC000003E (codes "p") (some policy)
    ≡ done program
unfolding bpf_validate_arch bpf_allow_syscall bpf_allow_syscall_args instrs_of compile_filter
    append_fall_through append_ret_kill link flatten_block_list flatten_blocks write_instrs
    bpf_resolve_jumps resolve_from resolve_instr resolve_jump place_label compile_entries
    compile_file compile_lines compile_stripped compile_line add_syscall
    insert_and_check_duplicate_syscall append_filter_block append_behind append_allow_syscall
    append_ret_errno extend_filter_block_list compile_policy_line compile_errno entry_block
    bpf_label_id find_label read_all read_lines getmultiline eat_newline drop_last strip strip_front
    strip_back strsep strtok span_token lookup_syscall lookup_from streq starts_with parse_constant
    parse_terms single_term single_constant parse_single_constant starts_with_paren drop_tilde
    tokenize strstr strtol
compiles = refl

compile_filter-kills_example : exec kernel foreign_call program 0 start ≡ some Ret.kill
compile_filter-kills_example =
    compile_filter-kills two_syscalls [] no_files killing 0xC000003E (codes "p") (some policy)
      program foreign_call start compiles is_foreign
