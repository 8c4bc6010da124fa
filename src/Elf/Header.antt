-- ===== src/Elf/Header.antt =====
-- src/elf/elf.cpp: parse_header.
pub mod Safe
use roe.Base.{
  ℕ, ◌+◌, ◌<◌, Bool, true, false, ◌&&◌, ◌||◌, not, length, get_or, ltb, ◌==◌, if◌then◌else◌,
}
use roe.Base.Text.{text}
use roe.Core.Error.{make_error, make_error_at, malformed_input, unsupported_format}
use roe.Core.Result.{Result, ok, err, ◌>>=◌, ◌>>◌, reject, value, or_error, element}
use roe.Elf.Types.{Bytes, Class, elf32, elf64, Endianness, little, big, Header}
use roe.Elf.Reader.{Reader, window, validate_range, u16, u32, u64}

abbrev pub elf_ident_size : ℕ
elf_ident_size = 16

-- The size of the file's header, of a program header and of a section header.
abbrev pub ehdr_size : Class → ℕ
ehdr_size elf32 = 52
ehdr_size elf64 = 64

abbrev pub phdr_size : Class → ℕ
phdr_size elf32 = 32
phdr_size elf64 = 56

abbrev pub shdr_size : Class → ℕ
shdr_size elf32 = 40
shdr_size elf64 = 64

-- The first four bytes, behind `at`.
unfoldable pub is_magic : (ℕ → ℕ) → Bool
is_magic at = at 0 == 0x7f && at 1 == b'E' && at 2 == b'L' && at 3 == b'F'

unfoldable pub class_of : ℕ → Result Class
class_of b =
    if b == 1
    then ok elf32
    else if b == 2
    then ok elf64
    else err (make_error_at unsupported_format (text "unsupported ELF class") 4)

unfoldable pub endianness_of : ℕ → Result Endianness
endianness_of b =
    if b == 1
    then ok little
    else if b == 2
    then ok big
    else err (make_error_at unsupported_format (text "unsupported ELF endianness") 5)

-- The fields behind the version, at the offsets of each class.
unfoldable pub header_fields : Class → Reader → ℕ → ℕ → Result Header
header_fields elf64 r type machine = do
  entry ← value (u64 r 24)
  phoff ← value (u64 r 32)
  shoff ← value (u64 r 40)
  ehsize ← value (u16 r 52)
  phentsize ← value (u16 r 54)
  phnum ← value (u16 r 56)
  shentsize ← value (u16 r 58)
  shnum ← value (u16 r 60)
  shstrndx ← value (u16 r 62)
  ok (record {
    elf_class = elf64;
    endianness = r.endianness;
    type = type;
    machine = machine;
    entry = entry;
    program_header_offset = phoff;
    section_header_offset = shoff;
    header_size = ehsize;
    program_header_entry_size = phentsize;
    program_header_count = phnum;
    section_header_entry_size = shentsize;
    section_header_count = shnum;
    section_name_index = shstrndx;
  })
header_fields elf32 r type machine = do
  entry ← value (u32 r 24)
  phoff ← value (u32 r 28)
  shoff ← value (u32 r 32)
  ehsize ← value (u16 r 40)
  phentsize ← value (u16 r 42)
  phnum ← value (u16 r 44)
  shentsize ← value (u16 r 46)
  shnum ← value (u16 r 48)
  shstrndx ← value (u16 r 50)
  ok (record {
    elf_class = elf32;
    endianness = r.endianness;
    type = type;
    machine = machine;
    entry = entry;
    program_header_offset = phoff;
    section_header_offset = shoff;
    header_size = ehsize;
    program_header_entry_size = phentsize;
    program_header_count = phnum;
    section_header_entry_size = shentsize;
    section_header_count = shnum;
    section_name_index = shstrndx;
  })

-- The checks on the fields, behind the reads.
unfoldable pub check_header : Header → Result Header
check_header h = do
  reject (ltb h.header_size (ehdr_size h.elf_class))
      (make_error_at malformed_input (text "ELF header reports an invalid size") h.header_size)
  reject (ltb 0 h.program_header_count && ltb h.program_header_entry_size (phdr_size h.elf_class))
      (make_error malformed_input (text "program header entry size is too small"))
  reject (ltb 0 h.section_header_count && ltb h.section_header_entry_size (shdr_size h.elf_class))
      (make_error malformed_input (text "section header entry size is too small"))
  ok h

-- The three reads are made before their results are looked at, and any failure has one error.
unfoldable pub parse_header_body : Reader → Class → Result Header
parse_header_body r class = do
  validate_range 0 (ehdr_size class) (length r.bytes) (text "ELF header")
  let unread = make_error malformed_input (text "failed to read ELF header")
  type ← or_error unread (u16 r 16)
  machine ← or_error unread (u16 r 18)
  file_version ← or_error unread (u32 r 20)
  reject (not (file_version == 1))
      (make_error_at unsupported_format (text "unsupported ELF header version") 20)
  header ← header_fields class r type machine
  check_header header

unfoldable pub parse_header : Bytes → Result Header
parse_header bytes = do
  reject (ltb (length bytes) elf_ident_size)
      (make_error malformed_input (text "file is too small to be an ELF file"))
  at ← window bytes 0 4
  reject (not (is_magic at)) (make_error unsupported_format (text "input is not an ELF file"))
  ident_class ← element bytes 4
  class ← class_of ident_class
  ident_data ← element bytes 5
  endianness ← endianness_of ident_data
  ident_version ← element bytes 6
  reject (not (ident_version == 1))
      (make_error_at unsupported_format (text "unsupported ELF ident version") 6)
  parse_header_body (record { bytes = bytes; endianness = endianness }) class
