-- ===== src/Elf/Headers.antt =====
-- What `get_elf_linkage` says of an ELF file.
use minijail.Base.{
  ℕ, ◌≤◌, Bool, true, false, if◌then◌else◌, ◌==◌, length, take, drop, suc, zero, [], ◌∷◌, Bytes,
  some, ◌≡◌, refl, arith, ==_iff,
}
use minijail.Util.Buffer.{byte_at}
use minijail.Elf.{
  ElfBits, bits32, bits64, phoff_at, phoff_size, phentsize_at, phnum_at, phdr_size, headersize,
  header_field, is_elf_magic, parse_elf, parse_header, get_elf_linkage,
}
use minijail.Elf.Scan.{IsScanned, scan_headers-IsScanned}

abbrev pub header : Bytes → Bytes
header contents = take headersize contents

-- EI_DATA and EI_CLASS.
abbrev pub data_of : Bool → ℕ
data_of little_endian = if little_endian then 1 else 2

abbrev pub class_of : ElfBits → ℕ
class_of bits32 = 1
class_of bits64 = 2

length-take : (n : ℕ) (s : Bytes) → n ≤ length s → length (take n s) ≡ n
length-take zero s h = refl
length-take (suc n) [] h = absurd (omega (arith, h))
length-take (suc n) (c ∷ s) h = omega (arith, length-take n s (omega (arith, h)))

one_byte : (s : Bytes) (i a b : ℕ) → (a == b) ≡ false → byte_at s i a ≡ true → byte_at s i b ≡ false
unfolding byte_at
one_byte s i a b differ e = ground (arith, e, differ)

abbrev pub phoff : ElfBits → Bool → Bytes → ℕ
phoff bits little_endian head = header_field little_endian (phoff_at bits) (phoff_size bits) head

parse_header-parse_elf :
    (seeks : ℕ → Bool) (bits : ElfBits) (little_endian : Bool) (head contents : Bytes)
    → byte_at head 5 (data_of little_endian) ≡ true
    → byte_at head 4 (class_of bits) ≡ true
    → parse_header seeks head contents ≡ parse_elf seeks bits little_endian head contents
unfolding parse_header
parse_header-parse_elf seeks bits64 true head contents d c = rw (d, c) refl
parse_header-parse_elf seeks bits64 false head contents d c =
    rw (one_byte head 5 2 1 refl d, d, c) refl
parse_header-parse_elf seeks bits32 true head contents d c =
    rw (d, one_byte head 4 1 2 refl c, one_byte head 5 1 2 refl d, c) refl
parse_header-parse_elf seeks bits32 false head contents d c =
    rw (one_byte head 5 2 1 refl d, d, one_byte head 4 1 2 refl c, c) refl

module _ (seeks : ℕ → Bool) (bits : ElfBits) (little_endian : Bool) (head contents : Bytes) where
  parse_elf-IsScanned :
      header_field little_endian (phentsize_at bits) 2 head ≡ phdr_size bits
      → seeks (phoff bits little_endian head) ≡ true
      → IsScanned
          (phdr_size bits)
          (header_field little_endian (phnum_at bits) 2 head)
          (drop (phoff bits little_endian head) contents)
          (parse_elf seeks bits little_endian head contents)
  unfolding parse_elf
  parse_elf-IsScanned size seek =
      rw ((==_iff _ (phdr_size bits)).1 size, seek) (scan_headers-IsScanned (phdr_size bits) _ _)

-- For an ELF file of at least HEADERSIZE bytes, of one of the two classes and one of the two byte
-- orders, whose program headers have the size of that class, and where fseek(3) goes to them,
-- get_elf_linkage gives ELFDYNAMIC exactly where one of the program headers is whole and PT_INTERP
-- (in the byte order of the host), ELFSTATIC where all are whole and none is, and ELFERROR
-- otherwise.
pub get_elf_linkage-IsScanned :
    (seeks : ℕ → Bool) (bits : ElfBits) (little_endian : Bool) (contents : Bytes)
    → headersize ≤ length contents
    → is_elf_magic (header contents) ≡ true
    → byte_at (header contents) 5 (data_of little_endian) ≡ true
    → byte_at (header contents) 4 (class_of bits) ≡ true
    → header_field little_endian (phentsize_at bits) 2 (header contents) ≡ phdr_size bits
    → seeks (phoff bits little_endian (header contents)) ≡ true
    → IsScanned
        (phdr_size bits)
        (header_field little_endian (phnum_at bits) 2 (header contents))
        (drop (phoff bits little_endian (header contents)) contents)
        (get_elf_linkage seeks (some contents))
unfolding get_elf_linkage
get_elf_linkage-IsScanned seeks bits little_endian contents long magic d c size seek =
    rw
      (
        (==_iff _ headersize).1 (length-take headersize contents long),
        magic,
        parse_header-parse_elf seeks bits little_endian (header contents) contents d c,
      )
      (parse_elf-IsScanned seeks bits little_endian (header contents) contents size seek)
