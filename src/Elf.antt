-- ===== src/Elf.antt =====
-- elfparse.c: whether the program of a file is linked statically or dynamically. A file is the list
-- of its bytes; the host is little-endian.
pub mod Scan
pub mod Headers
use minijail.Base.{
  ℕ, zero, suc, ◌+◌, ◌*◌, Bool, true, false, ◌&&◌, List, [], ◌∷◌, ◌++◌, Option, none, some,
  if◌then◌else◌, ◌==◌, length, take, drop, leb, Bytes,
}
use minijail.Util.Buffer.{byte_at}
use minijail.Jail.Unmarshal.{le_value}

pub data ElfType : Type 0 where
  elf_error elf_static elf_dynamic : ElfType

abbrev pub headersize : ℕ
headersize = 128

-- PT_INTERP of <elf.h>.
abbrev pub pt_interp : ℕ
pt_interp = 3

-- The two instances of parseElftemplate.
pub data ElfBits : Type 0 where
  bits32 bits64 : ElfBits

-- Where the fields of Minijail_Elf32_Ehdr and Minijail_Elf64_Ehdr stand, which are packed, and the
-- size of a program header.
abbrev pub phoff_at : ElfBits → ℕ
phoff_at bits32 = 16 + 2 + 2 + 4 + 4
phoff_at bits64 = 16 + 2 + 2 + 4 + 8

abbrev pub phoff_size : ElfBits → ℕ
phoff_size bits32 = 4
phoff_size bits64 = 8

abbrev pub phentsize_at : ElfBits → ℕ
phentsize_at bits32 = phoff_at bits32 + 4 + 4 + 4 + 2
phentsize_at bits64 = phoff_at bits64 + 8 + 8 + 4 + 2

abbrev pub phnum_at : ElfBits → ℕ
phnum_at bits = phentsize_at bits + 2

abbrev pub phdr_size : ElfBits → ℕ
phdr_size bits32 = 4 + 4 + 4 + 4 + 4 + 4 + 4 + 4
phdr_size bits64 = 4 + 4 + 8 + 8 + 8 + 8 + 8 + 8

-- The bytes of a number the highest first.
abbrev pub be_from : ℕ → Bytes → ℕ
be_from high [] = high
be_from high (c ∷ s) = be_from (256 * high + c) s

-- A field of `size` bytes, as le16toh(3) or be16toh(3) and their like give it.
unfoldable pub header_field : Bool → ℕ → ℕ → Bytes → ℕ
header_field little_endian offset size head =
    let field = take size (drop offset head) in
    if little_endian then le_value field else be_from 0 field

-- `p_type`, in the order of the host.
unfoldable pub p_type : Bytes → ℕ
p_type pheader = le_value (take 4 pheader)

-- The loop over the `n` program headers that are left, with what is left of the file.
unfoldable pub scan_headers : ℕ → ℕ → Bytes → ElfType
scan_headers size zero rest = elf_static
scan_headers size (suc n) rest =
    let later = scan_headers size n (drop size rest) in
    if leb size (length rest)
    then (if p_type rest == pt_interp then elf_dynamic else later)
    else elf_error

unfoldable pub is_elf_magic : Bytes → Bool
is_elf_magic buf =
    byte_at buf 0 127 && byte_at buf 1 b'E' && byte_at buf 2 b'L' && byte_at buf 3 b'F'

-- `seeks` says whether fseek(3) goes to an offset.
module _ (seeks : ℕ → Bool) where
  unfoldable pub parse_elf : ElfBits → Bool → Bytes → Bytes → ElfType
  parse_elf bits little_endian head contents =
      let phoff = header_field little_endian (phoff_at bits) (phoff_size bits) head in
      let phentsize = header_field little_endian (phentsize_at bits) 2 head in
      let phnum = header_field little_endian (phnum_at bits) 2 head in
      if phentsize == phdr_size bits
      then (if seeks phoff
          then scan_headers (phdr_size bits) phnum (drop phoff contents)
          else elf_error)
      else elf_error

  -- EI_CLASS is the byte 4 and EI_DATA the byte 5 of the header.
  unfoldable pub parse_header : Bytes → Bytes → ElfType
  parse_header head contents =
      if byte_at head 5 1 && byte_at head 4 2
      then parse_elf bits64 true head contents
      else if byte_at head 5 2 && byte_at head 4 2
      then parse_elf bits64 false head contents
      else if byte_at head 5 1 && byte_at head 4 1
      then parse_elf bits32 true head contents
      else if byte_at head 5 2 && byte_at head 4 1
      then parse_elf bits32 false head contents
      else elf_error

  -- The file is none where fopen(3) fails.
  unfoldable pub get_elf_linkage : Option Bytes → ElfType
  get_elf_linkage none = elf_error
  get_elf_linkage (some contents) =
      let head = take headersize contents in
      if length head == headersize
      then (if is_elf_magic head then parse_header head contents else elf_dynamic)
      else elf_dynamic
