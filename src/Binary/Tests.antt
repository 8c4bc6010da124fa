-- ===== src/Binary/Tests.antt =====
-- Runs of the format detection and the queries, and their theorems at a concrete file.
use roe.Base.{ℕ, ◌≡◌, refl, true, false, none, some, List, [], ◌∷◌, arith, if◌then◌else◌}
use roe.Base.Text.{text, text_eq}
use roe.Binary.Types
use roe.Binary.Types.{Format, FileView, Object, Section, Symbol}
use roe.Binary.Detect.{
  detect_format, detect_words, is_elf, is_archive, is_fat, is_mach_o, is_pe, read_be32, read_le32,
  pe_or_unknown, big_word, little_word,
}
use roe.Core.Result.{ok, element}
use roe.Elf.Reader.{window}
use roe.Binary.Detect.Magic.{detect_format-magic, is_four, magic_format, dos_format, archive_front}
use roe.Binary.Queries.{
  front, primary_object, find_if, find_section, functions_of, function_symbols, has_name,
  find_symbol,
}
use roe.Binary.Names.{format_name, hex_digit, hex_byte, hex_loop, first_bytes_hex}
use roe.Binary.Names.Laws.{names-differ, read_hex, read_hex-first_bytes_hex}

abbrev thin : List ℕ
thin = 0xCF ∷ 0xFA ∷ 0xED ∷ 0xFE ∷ 7 ∷ []

detect_thin : detect_format thin ≡ ok Format.mach_o
unfolding detect_format detect_words is_elf is_archive is_fat is_mach_o is_pe read_be32 read_le32
    big_word little_word pe_or_unknown window element text text_eq
detect_thin = refl

detect_stub : detect_format (b'M' ∷ b'Z' ∷ []) ≡ ok Format.pe_coff
unfolding detect_format detect_words is_elf is_archive is_fat is_mach_o is_pe read_be32 read_le32
    big_word little_word pe_or_unknown window element text text_eq
detect_stub = refl

detect_format-magic_example :
    detect_format thin
    ≡ ok (
        if is_four 0xCF 0xFA 0xED 0xFE 0x7f b'E' b'L' b'F'
        then Format.elf
        else if archive_front thin
        then Format.archive
        else magic_format 0xCF 0xFA 0xED 0xFE (dos_format 0xCF 0xFA))
detect_format-magic_example =
    detect_format-magic 0xCF 0xFA 0xED 0xFE (7 ∷ []) (omega arith) (omega arith) (omega arith)
      (omega arith)

abbrev main_symbol : Symbol
main_symbol = record {
  name = text "main";
  raw_name = text "main";
  object_index = 0;
  address = 0x1000;
  size = 8;
  section_index = 1;
  bind = Types.SymbolBind.global;
  type = Types.SymbolType.function;
  defined = true;
  dynamic = false;
  synthetic = false;
  library = [];
}

abbrev code : Section
code = record {
  name = text ".text";
  object_index = 0;
  index = 1;
  kind = Types.SectionKind.code;
  address = 0x1000;
  offset = 0x40;
  size = 8;
  alignment = 16;
  readable = true;
  writable = false;
  executable = true;
  contains_strings = false;
}

abbrev object : Object
object = record {
  name = text "a.out";
  index = 0;
  format = Format.elf;
  architecture = Types.Architecture.x86_64;
  address_width = Types.bits64;
  endianness = Types.little;
  kind = Types.ObjectKind.executable;
  entry = 0x1000;
  sections = code ∷ [];
  segments = [];
  symbols = record main_symbol { defined = false } ∷ main_symbol ∷ [];
  relocations = [];
  strings = [];
  libraries = [];
  stripped = false;
}

abbrev view : FileView
view = record {
  source_name = text "a.out";
  format = Format.elf;
  first_bytes = [];
  objects = object ∷ [];
}

first_object : primary_object view ≡ some object
unfolding primary_object front
first_object = refl

functions : function_symbols view 0 ≡ main_symbol ∷ []
unfolding function_symbols functions_of
functions = refl

find_code : find_section view 0 (text ".text") ≡ some code
unfolding find_section find_if text text_eq
find_code = refl

find_missing : find_symbol view 0 (text "puts") ≡ none
unfolding find_symbol find_if has_name text text_eq
find_missing = refl

dump_run : first_bytes_hex (0x7f ∷ b'E' ∷ 0x0a ∷ []) 2 ≡ text "7f 45"
unfolding first_bytes_hex hex_loop hex_byte hex_digit text
dump_run = refl

same_names : format_name Format.elf ≡ format_name Format.elf → Format.elf ≡ Format.elf
same_names = names-differ.0 Format.elf Format.elf

read_hex-first_bytes_hex_example :
    read_hex (first_bytes_hex (0x7f ∷ b'E' ∷ []) 16) ≡ 0x7f ∷ b'E' ∷ []
read_hex-first_bytes_hex_example =
    read_hex-first_bytes_hex 0x7f (b'E' ∷ []) 15 (omega arith) (omega arith)
