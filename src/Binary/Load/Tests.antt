-- ===== src/Binary/Load/Tests.antt =====
-- Files that are loaded: a fat file with one thin image, and texts of no known format.
use roe.Base.{◌≡◌, refl, false, arith, [], ◌∷◌, take}
use roe.Base.Text.{text, text_eq}
use roe.Core.Error.{make_error, unsupported_format}
use roe.Core.Result.{ok, err, reject, element, Returns}
use roe.Binary.Types
use roe.Elf.Types.{Bytes, IsImage, little}
use roe.Elf.Reader.{add64, word32, window, slice}
use roe.Macho.Strings.{extract_strings}
use roe.Binary.Detect.{detect_format, detect_words, is_elf, is_archive, is_pe, read_le32}
use roe.Binary.Detect as Detect
use roe.Binary.Names.{first_bytes_hex, hex_loop, hex_byte, hex_digit}
use roe.Macho.Reader.{u32}
use roe.Macho.Commands.{command_loop}
use roe.Macho.Symbols.{parse_symtab}
use roe.Macho.Parse.{
  no_commands, magic_of, thin_object, parse_thin, read_be32, read_slice, arch_loop, assign,
  cut_slice, choose_slice, thin_image, parse_bytes, open_bytes,
}
use roe.Binary.Load.{BinaryFile, load_as, load_bytes}
use roe.Binary.Load.Safe.{HasObject, load_bytes-Returns}

abbrev thin : Bytes
thin =
    0xce ∷ 0xfa ∷ 0xed ∷ 0xfe ∷ 7 ∷ 0 ∷ 0 ∷ 0 ∷ 3 ∷ 0 ∷ 0 ∷ 0 ∷ 6 ∷ 0 ∷ 0 ∷ 0 ∷ 0 ∷ 0 ∷ 0 ∷ 0 ∷ 0
    ∷ 0 ∷ 0 ∷ 0 ∷ 0 ∷ 0 ∷ 0 ∷ 0 ∷ []

abbrev fat : Bytes
fat =
    0xca ∷ 0xfe ∷ 0xba ∷ 0xbe ∷ 0 ∷ 0 ∷ 0 ∷ 1 ∷ 0 ∷ 0 ∷ 0 ∷ 7 ∷ 0 ∷ 0 ∷ 0 ∷ 3 ∷ 0 ∷ 0 ∷ 0 ∷ 28 ∷ 0
    ∷ 0 ∷ 0 ∷ 28 ∷ 0 ∷ 0 ∷ 0 ∷ 0 ∷ thin

fat-IsImage : IsImage fat
fat-IsImage = record { is_bytes = omega arith; size_bound = omega arith }

fat_run :
    load_bytes [] fat
    ≡ ok (
        BinaryFile.macho (record {
          view = record {
            source_name = [];
            format = Types.Format.mach_o;
            first_bytes = take 16 thin;
            objects =
                thin_object 0 (record { is64 = false; order = little }) 7 6 no_commands [] [] ∷ [];
          };
          image = thin;
        }))
unfolding load_bytes load_as detect_format detect_words is_elf is_archive window slice
    extract_strings Detect.big_word Detect.little_word Detect.is_fat Detect.is_mach_o is_pe
    Detect.read_be32 read_le32 open_bytes parse_bytes thin_image choose_slice read_be32 read_slice
    arch_loop cut_slice assign parse_thin magic_of reject u32 word32 add64 element command_loop
    parse_symtab text text_eq
fat_run = refl

unknown_run :
    load_bytes [] (1 ∷ 0xab ∷ [])
    ≡ err (make_error unsupported_format (text "unrecognized file format; first bytes: 01 ab"))
unfolding load_bytes load_as detect_format detect_words is_elf is_archive is_pe Detect.pe_or_unknown
    window element first_bytes_hex hex_loop hex_byte hex_digit text text_eq
unknown_run = refl

load_bytes-Returns_example : Returns HasObject (load_bytes [] fat)
load_bytes-Returns_example = load_bytes-Returns [] fat fat-IsImage
