-- ===== src/Macho/Tests.antt =====
-- A thin image with a segment, a section and a symbol, a fat image whose slice wraps around, and the
-- theorems at them.
use roe.Base.{ℕ, zero, suc, ◌≡◌, refl, false, true, arith, [], ◌∷◌, ◌++◌}
use roe.Base.Text.{text, is_empty, text_eq, starts_with, contains}
use roe.Core.Result.{ok, aborted, element, reject, Returns}
use roe.Binary.Types
use roe.Elf.Types.{Bytes, IsImage, little}
use roe.Macho.Parse.Words.{be32}
use roe.Elf.Reader.{window, slice, add64, word16, word32, word64}
use roe.Pe.Reader.{copy_fixed, fixed_string}
use roe.Macho.Reader.{u8, u16, u32, u64, until_zero, c_string}
use roe.Macho.Strings.{
  is_text_byte, push_string, scan_byte, scan_bytes, is_scanned, scan_section, extract_strings,
}
use roe.Macho.Commands.{
  Commands, command_kind, read_segment, section_kind, mach_section, read_section, section_loop,
  visit_segment, visit_symtab, leaf_name, visit_command, command_loop,
}
use roe.Macho.Symbols.{
  display_name, mach_bind, mach_symbol, import_library, symbol_name, visit_nlist, nlist_loop,
  parse_symtab,
}
use roe.Macho.Parse.{magic_of, is_fat64, thin_object, parse_thin, open_bytes}
use roe.Macho.Parse.Safe.{IsOpened, macho_open_bytes-Returns}
use roe.Macho.Parse.Escapes.{IsWrapped, open_bytes-escapes}

abbrev zeros : ℕ → Bytes
zeros zero = []
zeros (suc n) = 0 ∷ zeros n

-- The header; a segment command with the section __cstring, which is five bytes at 225; a symbol table
-- command; the symbol; and the string table, at 224.
abbrev image : Bytes
image =
    207
    ∷ 250
    ∷ 237
    ∷ 254
    ∷ 7
    ∷ 0
    ∷ 0
    ∷ 1
    ∷ 3
    ∷ 0
    ∷ 0
    ∷ 0
    ∷ 2
    ∷ 0
    ∷ 0
    ∷ 0
    ∷ 2
    ∷ 0
    ∷ 0
    ∷ 0
    ∷ 176
    ∷ (zeros 11
        ++ 25
          ∷ 0
          ∷ 0
          ∷ 0
          ∷ 152
          ∷ 0
          ∷ 0
          ∷ 0
          ∷ 95
          ∷ 95
          ∷ 84
          ∷ 69
          ∷ 88
          ∷ 84
          ∷ (zeros 11
              ++ 16
                ∷ (zeros 6
                    ++ 64
                      ∷ (zeros 15
                          ++ 64
                            ∷ (zeros 7
                                ++ 1
                                  ∷ 0
                                  ∷ 0
                                  ∷ 0
                                  ∷ 1
                                  ∷ 0
                                  ∷ 0
                                  ∷ 0
                                  ∷ 1
                                  ∷ (zeros 7
                                      ++ 95
                                        ∷ 95
                                        ∷ 99
                                        ∷ 115
                                        ∷ 116
                                        ∷ 114
                                        ∷ 105
                                        ∷ 110
                                        ∷ 103
                                        ∷ (zeros 7
                                            ++ 95
                                              ∷ 95
                                              ∷ 84
                                              ∷ 69
                                              ∷ 88
                                              ∷ 84
                                              ∷ (zeros 10
                                                  ++ 16
                                                    ∷ 16
                                                    ∷ (zeros 6
                                                        ++ 5
                                                          ∷ (zeros 7
                                                            ++ 225
                                                            ∷ (zeros 31
                                                            ++ 2
                                                            ∷ 0
                                                            ∷ 0
                                                            ∷ 0
                                                            ∷ 24
                                                            ∷ 0
                                                            ∷ 0
                                                            ∷ 0
                                                            ∷ 208
                                                            ∷ 0
                                                            ∷ 0
                                                            ∷ 0
                                                            ∷ 1
                                                            ∷ 0
                                                            ∷ 0
                                                            ∷ 0
                                                            ∷ 224
                                                            ∷ 0
                                                            ∷ 0
                                                            ∷ 0
                                                            ∷ 7
                                                            ∷ 0
                                                            ∷ 0
                                                            ∷ 0
                                                            ∷ 1
                                                            ∷ 0
                                                            ∷ 0
                                                            ∷ 0
                                                            ∷ 15
                                                            ∷ 1
                                                            ∷ 0
                                                            ∷ 0
                                                            ∷ 4
                                                            ∷ 16
                                                            ∷ (zeros 7
                                                            ++ 95 ∷ 109 ∷ 97 ∷ 105 ∷ 110 ∷ 0
                                                            ∷ []))))))))))))

image-IsImage : IsImage image
image-IsImage = record { is_bytes = omega arith; size_bound = omega arith }

abbrev section : Types.Section
section = mach_section 0 0 (text "__cstring") 0x1010 5 225 1

abbrev commands : Commands
commands = record {
  segments =
      record {
        name = text "__TEXT";
        address = 0x1000;
        offset = 0;
        size = 64;
        readable = true;
        writable = false;
        executable = false;
        detail = text "segment";
      }
      ∷ [];
  sections = section ∷ [];
  libraries = [];
  entry = 0;
  symtab = record { symoff = 208; nsyms = 1; stroff = 224; strsize = 7; present = true };
}

abbrev main : Types.Symbol
main = record {
  name = text "main";
  raw_name = text "_main";
  object_index = 0;
  address = 0x1004;
  size = 0;
  section_index = 1;
  bind = Types.SymbolBind.exported;
  type = Types.SymbolType.function;
  defined = true;
  dynamic = true;
  synthetic = false;
  library = [];
}

thin_run :
    parse_thin image 0
    ≡ ok (
        thin_object 0
          (record { is64 = true; order = little })
          0x0100_0007
          2
          commands
          (main ∷ [])
          [])
unfolding parse_thin window slice scan_bytes scan_byte is_text_byte push_string extract_strings
    scan_section is_scanned reject magic_of u8 u16 u32 u64 word16 word32 word64 add64 element
    command_loop command_kind visit_command visit_segment read_segment section_loop read_section
    mach_section section_kind fixed_string copy_fixed visit_symtab parse_symtab nlist_loop
    visit_nlist symbol_name import_library mach_symbol mach_bind display_name c_string until_zero
    is_empty starts_with text text_eq contains
thin_run = refl

-- The section reaches the zero byte that ends the string.
abbrev string : Types.StringLiteral
string = record { object_index = 0; address = 0x1010; size = 4; value = text "main" }

strings_run :
    extract_strings 0
      (0 ∷ b'm' ∷ b'a' ∷ b'i' ∷ b'n' ∷ 0 ∷ 7 ∷ [])
      (record section { offset = 1 } ∷ [])
      []
    ≡ ok (string ∷ [])
unfolding slice extract_strings scan_section is_scanned scan_bytes scan_byte is_text_byte
    push_string add64 mach_section section_kind is_empty text text_eq contains starts_with
strings_run = refl

library_run :
    leaf_name (text "/usr/lib/libc.dylib") (text "/usr/lib/libc.dylib") ≡ text "libc.dylib"
unfolding leaf_name text
library_run = refl

macho_open_bytes-Returns_example : Returns IsOpened (open_bytes [] image)
macho_open_bytes-Returns_example = macho_open_bytes-Returns [] image image-IsImage narrow
  where
    narrow : is_fat64 (be32 image 0) ≡ false
    narrow = unfold be32 word32 in refl

-- A fat image with 64-bit offsets: a slice of eight bytes at the offset 2 ^ 64 - 4.
abbrev wrapped_image : Bytes
wrapped_image =
    0xca
    ∷ 0xfe
    ∷ 0xba
    ∷ 0xbf
    ∷ 0
    ∷ 0
    ∷ 0
    ∷ 1
    ∷ 1
    ∷ 0
    ∷ 0
    ∷ 12
    ∷ (zeros 4
        ++ (0xff ∷ 0xff ∷ 0xff ∷ 0xff ∷ 0xff ∷ 0xff ∷ 0xff ∷ 0xfc ∷ (zeros 7 ++ (8 ∷ zeros 8))))

wrapped_image-IsWrapped : IsWrapped wrapped_image
unfolding be32 word32 word64 add64
wrapped_image-IsWrapped = record {
  fat64 = refl;
  some_arch = omega arith;
  few_archs = omega arith;
  long = omega arith;
  arm64 = refl;
  nonempty = omega arith;
  passes = omega arith;
  outside = omega arith;
}

open_bytes-escapes_example : open_bytes [] wrapped_image ≡ aborted
open_bytes-escapes_example = open_bytes-escapes wrapped_image wrapped_image-IsWrapped []
