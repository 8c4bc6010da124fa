-- ===== src/Pe/Parse.antt =====
-- src/pe/pe.cpp: parse_bytes, open_bytes and PeBinaryFile.
pub mod Safe
pub mod Rejects
use roe.Base.{
  ℕ, ◌+◌, ◌-◌, ◌%◌, ◌^◌, bit_and, Bool, true, false, ◌&&◌, ◌||◌, not, List, [], ◌∷◌, length, take,
  drop, min, ltb, ◌==◌, if◌then◌else◌,
}
use roe.Base.Text.{Text, text}
use roe.Core.Error.{Error, make_error, malformed_input, unsupported_format}
use roe.Core.Result.{Result, ok, err, ◌>>=◌, ◌>>◌, reject, element}
use roe.Binary.Types.{
  Architecture, Object, FileView, AddressWidth, Endianness, Format, ObjectKind, Section,
  SectionBytes, Symbol,
}
use roe.Elf.Types.{Bytes}
use roe.Elf.Reader.{add64, slice}
use roe.Pe.Reader.{Read, u16, u32, u64, map_machine, SectionMap}
use roe.Pe.Exports.{parse_exports}
use roe.Pe.Imports.{parse_imports}
use roe.Pe.Coff.{parse_coff_symbols}
use roe.Pe.Layout.{section_loop, Directories, directory_loop}

pub record File : Type 0 where
  pub view : FileView
  pub image : Bytes
  pub pdb_path : Text

-- What the COFF and the optional header give.
pub record Header : Type 0 where
  pub coff : ℕ
  pub machine : ℕ
  pub num_sections : ℕ
  pub opt_size : ℕ
  pub characteristics : ℕ
  pub pe32_plus : Bool
  pub entry_rva : ℕ
  pub image_base : ℕ
  pub num_dirs : ℕ

abbrev pub not_pe : Error
not_pe = make_error unsupported_format (text "not a PE file (missing MZ header)")

abbrev pub bad_signature : Error
bad_signature = make_error malformed_input (text "invalid PE signature")

abbrev pub bad_magic : Error
bad_magic = make_error malformed_input (text "unknown PE optional header magic")

abbrev pub bad_count : Error
bad_count = make_error malformed_input (text "implausible PE section count")

unfoldable pub check_stub : Bytes → Result (Unit {0})
check_stub bytes = if ltb (length bytes) 0x40 then err not_pe else (do
  m ← element bytes 0
  z ← element bytes 1
  reject (not (m == b'M') || not (z == b'Z')) not_pe)

-- `pe_off`, behind the tests on it. The sum wraps around at 32 bits.
unfoldable pub check_signature : Bytes → Read ℕ
check_signature bytes = do
  (pe_off, flag1) ← u32 bytes true 0x3c
  reject (ltb (length bytes) ((pe_off + 24) % 2 ^ 32)) bad_signature
  (signature, flag2) ← u32 bytes flag1 pe_off
  reject (not (signature == 0x0000_4550)) bad_signature
  ok (pe_off, flag2)

abbrev pub read_base : Bytes → Bool → ℕ → Bool → Read ℕ
read_base bytes pe32_plus opt flag =
    if pe32_plus then u64 bytes flag (opt + 24) else u32 bytes flag (opt + 28)

unfoldable pub read_header : Bytes → ℕ → Bool → Read Header
read_header bytes pe_off flag = do
  let coff = (pe_off + 4) % 2 ^ 32
  (machine, flag1) ← u16 bytes flag coff
  (num_sections, flag2) ← u16 bytes flag1 (coff + 2)
  (opt_size, flag3) ← u16 bytes flag2 (coff + 16)
  (characteristics, flag4) ← u16 bytes flag3 (coff + 18)
  let opt = coff + 20
  (opt_magic, flag5) ← u16 bytes flag4 opt
  let pe32_plus = opt_magic == 0x020b
  reject (not (opt_magic == 0x010b) && not pe32_plus) bad_magic
  (entry_rva, flag6) ← u32 bytes flag5 (opt + 16)
  (image_base, flag7) ← read_base bytes pe32_plus opt flag6
  (num_dirs, flag8) ← u32 bytes flag7 (opt + (if pe32_plus then 108 else 92))
  reject (ltb 4096 num_sections) bad_count
  ok (
    record {
      coff = coff;
      machine = machine;
      num_sections = num_sections;
      opt_size = opt_size;
      characteristics = characteristics;
      pe32_plus = pe32_plus;
      entry_rva = entry_rva;
      image_base = image_base;
      num_dirs = num_dirs;
    },
    flag8,
  )

-- The object before its COFF symbols are read.
abbrev pub pe_object : Header → List Section → Directories → List Text → List Symbol → Object
pe_object h sections d libraries symbols = record {
  name = [];
  index = 0;
  format = Format.pe_coff;
  architecture = map_machine h.machine;
  address_width = if h.pe32_plus then AddressWidth.bits64 else AddressWidth.bits32;
  endianness = Endianness.little;
  kind =
      if not (bit_and h.characteristics 0x2000 == 0)
      then ObjectKind.shared_library
      else ObjectKind.executable;
  entry = add64 h.image_base h.entry_rva;
  sections = sections;
  segments = d.segments;
  symbols = symbols;
  relocations = [];
  strings = [];
  libraries = libraries;
  stripped = false;
}

-- The sections, the data directories, and the three tables of symbols.
unfoldable pub read_tables : Bytes → Header → Bool → Read Object
read_tables bytes h flag = do
  let opt = h.coff + 20
  ((sections, places), flag1) ←
      section_loop bytes h.image_base (opt + h.opt_size) h.num_sections 0 flag
  (d, flag2) ←
      directory_loop bytes h.image_base (opt + (if h.pe32_plus then 112 else 96))
        (min h.num_dirs 16) 0 flag1 (record { segments = []; import_rva = 0; export_rva = 0 })
  imports ← parse_imports bytes places d.import_rva h.pe32_plus 0 flag2 [] []
  (symbols, flag3) ← parse_exports bytes places d.export_rva 0 imports.flag imports.symbols
  parse_coff_symbols bytes h.coff flag3 (pe_object h sections d imports.libraries symbols)

unfoldable pub parse_bytes : Text → Bytes → Result File
parse_bytes source_name bytes = do
  check_stub bytes
  (pe_off, flag1) ← check_signature bytes
  (h, flag2) ← read_header bytes pe_off flag1
  (object, flag3) ← read_tables bytes h flag2
  ok (record {
    view = record {
      source_name = source_name;
      format = Format.pe_coff;
      first_bytes = take 16 bytes;
      objects = object ∷ [];
    };
    image = bytes;
    pdb_path = [];
  })

pub record PeBinaryFile : Type 0 where
  pub view : FileView
  pub image : Bytes

unfoldable pub open_bytes : Text → Bytes → Result PeBinaryFile
open_bytes source_name bytes = do
  file ← parse_bytes source_name bytes
  ok (record { view = file.view; image = file.image })

-- A section whose range passes the end of the image has no bytes.
unfoldable pub section_bytes : PeBinaryFile → Section → Result SectionBytes
section_bytes b s =
    if ltb (length b.image) s.offset || ltb (length b.image - s.offset) s.size
    then ok (record {
      object_index = s.object_index;
      section_name = s.name;
      address = s.address;
      bytes = [];
    })
    else (do
      bytes ← slice b.image s.offset s.size
      ok (record {
        object_index = s.object_index;
        section_name = s.name;
        address = s.address;
        bytes = bytes;
      }))
