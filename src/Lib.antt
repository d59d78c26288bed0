-- ===== src/Lib.antt =====
-- minijail: the compiler of seccomp policies, and the jail that is configured and passed on.
--
-- A policy says, for each system call, which arguments it may have. syscall_filter.c reads a
-- policy line by line, parses each line with the text functions of util.c, and builds blocks of
-- BPF instructions with the functions of bpf.c. Jumps in a block name labels. The blocks are put
-- together into one program, and bpf_resolve_jumps gives the jumps their offsets. The kernel runs
-- that program at every system call. A program that uses the library fills a struct minijail by
-- calls of libminijail.c, one of which compiles a policy; the structure is written to a child as
-- bytes and read back there.
--
-- The files, and the code that they are about:
--
--   Base          shared helpers: Boolean tests, byte strings, lists and bits over native numbers
--   Bpf           bpf.c and bpf.h: struct sock_filter (Instr), the set_bpf_ macros, the functions
--                 that write short blocks, bpf_arg_comp; a function that writes instructions at a
--                 pointer returns the list of them
--   Bpf/Machine   what the instructions do: classic BPF on a struct seccomp_data (Data), with the
--                 accumulator and the scratch memory (State); a jump to a label is followed too, in
--                 the mode `labelled`
--   Bpf/Compare, Bpf/ArgComp, Bpf/Dispatch
--                 what the blocks of bpf.c do when they run
--   Bpf/Labels    struct bpf_labels (Labels), bpf_label_id and bpf_resolve_jumps, with the proofs
--                 in Labels/Table, Labels/Given, Labels/Placed and Labels/Resolve
--   Util          util.c: Util/Text (strip, tokenize, the scan for a parenthesis), Util/Constant
--                 (parse_single_constant, parse_constant), Util/Syscall (lookup_syscall),
--                 Util/Lines (getmultiline), Util/Size (parse_size), Util/Buffer (consumebytes,
--                 consumestr, path_join, path_is_parent), Util/Env (minijail_setenv and the other
--                 functions on environments), and Util/Number (strtol and strtoul of the C library)
--   Filter        syscall_filter.c: Filter/Blocks (struct filter_block and flatten_block_list, with Blocks/Linked
--                 about the pointers of a list),
--                 Filter/Names (the labels of a line), Filter/Line (compile_atom, compile_errno,
--                 compile_policy_line) and its proofs: Line/Code and Line/Run are about the code of
--                 groups, Line/Compile about the text that it comes from, Line/Meaning about what
--                 that text says, Line/Default about the rest of the line, Line/Verdict about all
--                 of them; Filter/File (compile_file and compile_filter), with File/Depth about
--                 its calls of itself, File/Table about the jump table in its head,
--                 File/Link about the program that it puts together, and File/Foreign about the
--                 calls of another architecture
--   Jail          libminijail.c: Jail/State (struct minijail and its parts), Jail/Identity,
--                 Jail/Namespace, Jail/Limits, Jail/FsRules, Jail/Mounts and Jail/Seccomp (the calls
--                 that configure a jail), Jail/Lookup (lookup_user and lookup_group of system.c),
--                 Jail/Call (all calls as data, and the jails they lead to); Jail/Sound is the
--                 invariant, and its children show that each call keeps it; Jail/Wire is the
--                 marshalling, Jail/Unmarshal the way back, Jail/RoundTrip what they give together
--   Config        config_parser.c: Config (parse_config_line, parse_config_file and the array of
--                 entries), Config/Entry about a line, Config/Capacity about the array and
--                 Config/Reference about what a file gives
--   Elf           elfparse.c and elfparse.h: Elf (get_elf_linkage and parseElf), Elf/Scan about the
--                 loop over the program headers, Elf/Headers about a whole file
--   Cli           minijail0_cli.c: set_child_env, with Cli/EnvAdd about what it leaves, and in
--                 Cli/Options getopt_from_conf, with Options/All about its calls
--   Tests         the theorems at concrete inputs, and runs of the code
--
-- Numbers are natural numbers, with the wrap-around of the C types written out; the 64-bit little-
-- endian configuration (BITS64) is modelled. A long that the code later reads as unsigned is the
-- number of its 64 bits. A C string is the list of its bytes without the final NUL; a function
-- that cuts a string in place returns the pieces.
--
-- Fuel: the loop over tokenize has two rounds more than the string has bytes, each round but the
-- last takes a byte. parse_constant has as many rounds as its string has bytes, and one more to
-- see the end; a term in parentheses has the rounds that are left, and is shorter. The loop over
-- getmultiline has one round more than the file has lines, and each round reads one. compile_file
-- has depth 2: an included file, at include_level 1, includes nothing. The decimal digits of n
-- have n + 1 rounds. lookup_user and lookup_group double the size of a buffer up to 2^20, so that
-- 22 rounds are enough from any size above 0. The loop of the caller of getopt_from_conf has one
-- call more than the list has entries. No other definition has fuel.
--
-- Allocations succeed but those of the list of config_parser.c, for which `available` says how
-- many bytes there are, and the copies that minijail_change_user and
-- minijail_namespace_set_hostname make when they have changed the jail, for which the field
-- `copies` of Host says whether there is memory; memory that is freed is not followed, and
-- warnings are not modelled. The tables of system calls and constants are generated by the build
-- and are arguments, and so is fopen(3), a function from names to files. A file is the list of its
-- lines, and whether it ends at its end; a file that may be ELF is the list of its bytes. A call
-- that ends the process, a write through NULL included, is `die` of Filter/Outcome, or `died` of
-- Jail/Answer. What the kernel, the C library and the options of the build say during a call on a
-- jail is a record, Host. The bytes of struct minijail itself are a parameter, and so is the way
-- back from them; the integers behind it are little-endian. What C leaves undefined when bytes are
-- read (a copy from NULL, a write behind an array) is `undefined` of Jail/Parse. What a failed
-- minijail_unmarshal leaves in the structure is not modelled.
--
-- Not modelled: logging and the functions that only free memory, and everything that works by
-- system calls: entering a jail and running a program in it (the rest of libminijail.c),
-- minijail0.c, minijail0_cli.c but for set_child_env and getopt_from_conf, the other functions of
-- system.c, landlock_util.c, signal_handler.c, syscall_wrapper.c, libminijailpreload.c.
pub mod Config
pub mod Cli
pub mod Elf
pub mod Base
pub mod Bpf
pub mod Util
pub mod Filter
pub mod Jail
pub mod Tests
