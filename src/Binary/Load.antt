-- ===== src/Binary/Load.antt =====
-- src/binary/binary.cpp: load_bytes, and the files that it opens.
pub mod Safe
mod Tests
use roe.Base.{List, ◌++◌}
use roe.Base.Text.{Text, text}
use roe.Core.Error.{make_error, unsupported_format}
use roe.Core.Result.{Result, ok, err, ◌>>=◌}
use roe.Binary.Types.{Format, FileView, Section, SectionBytes}
use roe.Binary.Detect.{detect_format}
use roe.Binary.Names.{first_bytes_hex}
use roe.Elf.Types.{Bytes}
use roe.Elf.Adapter.View.{ElfBinaryFile, view_section_bytes}
use roe.Elf.Adapter.View as ElfView
use roe.Macho.Parse as MachoParse
use roe.Macho.Parse.{MachoBinaryFile}
use roe.Pe.Parse as PeParse
use roe.Pe.Parse.{PeBinaryFile}

-- The classes that implement BinaryFile.
pub data BinaryFile : Type 0 where
  elf : ElfBinaryFile → BinaryFile
  macho : MachoBinaryFile → BinaryFile
  pe : PeBinaryFile → BinaryFile

unfoldable pub view_of : BinaryFile → FileView
view_of (BinaryFile.elf b) = b.view
view_of (BinaryFile.macho b) = b.view
view_of (BinaryFile.pe b) = b.view

unfoldable pub section_bytes : BinaryFile → Section → Result SectionBytes
section_bytes (BinaryFile.elf b) s = view_section_bytes b s
section_bytes (BinaryFile.macho b) s = MachoParse.section_bytes b s
section_bytes (BinaryFile.pe b) s = PeParse.section_bytes b s

abbrev pub load_elf : Text → Bytes → Result BinaryFile
load_elf source_name bytes = do b ← ElfView.open_bytes source_name bytes; ok (BinaryFile.elf b)

abbrev pub load_macho : Text → Bytes → Result BinaryFile
load_macho source_name bytes = do
  b ← MachoParse.open_bytes source_name bytes
  ok (BinaryFile.macho b)

abbrev pub load_pe : Text → Bytes → Result BinaryFile
load_pe source_name bytes = do b ← PeParse.open_bytes source_name bytes; ok (BinaryFile.pe b)

unfoldable pub load_as : Format → Text → Bytes → Result BinaryFile
load_as Format.elf source_name bytes = load_elf source_name bytes
load_as Format.mach_o source_name bytes = load_macho source_name bytes
load_as Format.mach_o_fat source_name bytes = load_macho source_name bytes
load_as Format.pe_coff source_name bytes = load_pe source_name bytes
load_as Format.archive source_name bytes = err (
    make_error unsupported_format (
      text
        "static archives are detected but not yet parsed by roe; extract members and inspect them individually"))
load_as Format.unknown source_name bytes = err (
    make_error unsupported_format
      (text "unrecognized file format; first bytes: " ++ first_bytes_hex bytes 16))

unfoldable pub load_bytes : Text → Bytes → Result BinaryFile
load_bytes source_name bytes = do format ← detect_format bytes; load_as format source_name bytes
