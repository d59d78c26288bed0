-- ===== src/Tests/ElfFiles.antt =====
-- The theorems on ELF files at concrete inputs, and runs of the code.
use minijail.Base.{
  ℕ, zero, suc, ◌≤◌, Bool, true, [], ◌∷◌, ◌++◌, some, length, drop, Bytes, ◌≡◌, refl, arith,
}
use minijail.Util.Buffer.{byte_at}
use minijail.Jail.Unmarshal.{le_value}
use minijail.Elf.{
  bits64, elf_static, elf_dynamic, headersize, header_field, phentsize_at, phnum_at, phdr_size,
  p_type, scan_headers, is_elf_magic, parse_elf, parse_header, get_elf_linkage,
}
use minijail.Elf.Scan.{IsScanned}
use minijail.Elf.Headers.{header, data_of, class_of, phoff, get_elf_linkage-IsScanned}

abbrev zeros : ℕ → Bytes
zeros zero = []
zeros (suc n) = 0 ∷ zeros n

-- One program header of type `kind`, behind the header of 64 bytes.
abbrev little_file : ℕ → Bytes
little_file kind =
    (127 ∷ b'E' ∷ b'L' ∷ b'F' ∷ 2 ∷ 1 ∷ zeros 26)
    ++ (64 ∷ zeros 21)
    ++ (56 ∷ 0 ∷ 1 ∷ zeros 7)
    ++ (kind ∷ zeros 63)

-- The same file in the other byte order, for PT_INTERP.
abbrev big_file : Bytes
big_file =
    (127 ∷ b'E' ∷ b'L' ∷ b'F' ∷ 2 ∷ 2 ∷ zeros 33)
    ++ (64 ∷ zeros 15)
    ++ (56 ∷ 0 ∷ 1 ∷ zeros 9)
    ++ (3 ∷ zeros 60)

abbrev anywhere : ℕ → Bool
anywhere offset = true

is_long : headersize ≤ length (little_file 3)
is_long = ground arith

has_magic : is_elf_magic (header (little_file 3)) ≡ true
unfolding is_elf_magic byte_at
has_magic = refl

has_data : byte_at (header (little_file 3)) 5 (data_of true) ≡ true
unfolding byte_at
has_data = refl

has_class : byte_at (header (little_file 3)) 4 (class_of bits64) ≡ true
unfolding byte_at
has_class = refl

has_size : header_field true (phentsize_at bits64) 2 (header (little_file 3)) ≡ phdr_size bits64
unfolding header_field le_value
has_size = refl

get_elf_linkage-IsScanned_example :
    IsScanned
      (phdr_size bits64)
      (header_field true (phnum_at bits64) 2 (header (little_file 3)))
      (drop (phoff bits64 true (header (little_file 3))) (little_file 3))
      (get_elf_linkage anywhere (some (little_file 3)))
get_elf_linkage-IsScanned_example =
    get_elf_linkage-IsScanned anywhere bits64 true (little_file 3) is_long has_magic has_data
      has_class has_size refl

finds_interp : get_elf_linkage anywhere (some (little_file 3)) ≡ elf_dynamic
unfolding get_elf_linkage is_elf_magic byte_at parse_header parse_elf header_field le_value
    scan_headers p_type
finds_interp = refl

finds_none : get_elf_linkage anywhere (some (little_file 1)) ≡ elf_static
unfolding get_elf_linkage is_elf_magic byte_at parse_header parse_elf header_field le_value
    scan_headers p_type
finds_none = refl

-- A host that is little-endian does not see PT_INTERP in a file that is not.
misses_interp : get_elf_linkage anywhere (some big_file) ≡ elf_static
unfolding get_elf_linkage is_elf_magic byte_at parse_header parse_elf header_field le_value
    scan_headers p_type
misses_interp = refl
