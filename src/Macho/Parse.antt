-- ===== src/Macho/Parse.antt =====
-- src/macho/macho.cpp: parse_thin, parse_bytes with the choice of a slice, open_bytes and
-- MachoBinaryFile.
pub mod Words
pub mod Safe
pub mod Escapes
use roe.Base.{
  ℕ, zero, suc, ◌+◌, ◌-◌, ◌*◌, bit_and, Bool, true, false, ◌&&◌, ◌||◌, not, List, [], ◌∷◌, length,
  get_or, take, drop, ltb, leb, ◌==◌, if◌then◌else◌,
}
use roe.Base.Text.{Text, text}
use roe.Core.Error.{Error, make_error, malformed_input, unsupported_format}
use roe.Core.Result.{Result, ok, err, aborted, ◌>>=◌, ◌>>◌, reject, element}
use roe.Binary.Types
use roe.Binary.Types.{Object, ObjectKind, FileView, Section, SectionBytes}
use roe.Elf.Types.{Bytes, Endianness, little, big}
use roe.Elf.Reader.{add64, load, window, slice, word32, word64}
use roe.Elf.Adapter.View.{order_of}
use roe.Pe.Reader.{Read}
use roe.Macho.Reader.{u32, map_arch}
use roe.Macho.Strings.{extract_strings}
use roe.Macho.Commands.{Symtab, Commands, command_loop}
use roe.Macho.Symbols.{parse_symtab}

-- What the magic number of a thin image tells.
pub record Magic : Type 0 where
  pub is64 : Bool
  pub order : Endianness

unfoldable pub magic_of : ℕ → Result Magic
magic_of magic =
    if magic == 0xfeed_facf
    then ok (record { is64 = true; order = little })
    else if magic == 0xcffa_edfe
    then ok (record { is64 = true; order = big })
    else if magic == 0xfeed_face
    then ok (record { is64 = false; order = little })
    else if magic == 0xcefa_edfe
    then ok (record { is64 = false; order = big })
    else err (make_error unsupported_format (text "not a thin Mach-O image"))

unfoldable pub kind_of : ℕ → ObjectKind
kind_of filetype =
    if filetype == 1
    then ObjectKind.relocatable
    else if filetype == 2
    then ObjectKind.executable
    else if filetype == 6
    then ObjectKind.shared_library
    else ObjectKind.object

abbrev pub no_commands : Commands
no_commands = record {
  segments = [];
  sections = [];
  libraries = [];
  entry = 0;
  symtab = record { symoff = 0; nsyms = 0; stroff = 0; strsize = 0; present = false };
}

abbrev pub thin_object :
    ℕ → Magic → ℕ → ℕ → Commands → List Types.Symbol → List Types.StringLiteral → Object
thin_object index m cputype filetype c symbols strings = record {
  name = [];
  index = index;
  format = Types.Format.mach_o;
  architecture = map_arch cputype;
  address_width = if m.is64 then Types.bits64 else Types.bits32;
  endianness = order_of m.order;
  kind = kind_of filetype;
  entry = c.entry;
  sections = c.sections;
  segments = c.segments;
  symbols = symbols;
  relocations = [];
  strings = strings;
  libraries = c.libraries;
  stripped = false;
}

abbrev pub read_thin : Bytes → ℕ → Magic → Result Object
read_thin bytes index m = do
  (cputype, flag1) ← u32 m.order bytes true 4
  (filetype, flag2) ← u32 m.order bytes flag1 12
  (ncmds, flag3) ← u32 m.order bytes flag2 16
  reject (ltb 100000 ncmds) (make_error malformed_input (text "Mach-O ncmds is implausible"))
  (c, flag4) ← command_loop m.order bytes index ncmds (if m.is64 then 32 else 28) flag3 no_commands
  (symbols, flag5) ← parse_symtab m.order bytes index c.libraries c.symtab m.is64 flag4
  strings ← extract_strings index bytes c.sections []
  ok (thin_object index m cputype filetype c symbols strings)

unfoldable pub parse_thin : Bytes → ℕ → Result Object
parse_thin bytes index = do
  reject (ltb (length bytes) 4) (make_error malformed_input (text "Mach-O image too small"))
  at ← window bytes 0 4
  m ← magic_of (word32 little at)
  read_thin bytes index m

unfoldable pub read_be32 : Bytes → ℕ → Result ℕ
read_be32 bytes offset =
    let word = (do at ← window bytes offset 4; ok (word32 big at)) in
    if ltb (length bytes) (add64 offset 4) then ok 0 else word

-- The offset and the size that the loop over the architectures has chosen.
pub record Slice : Type 0 where
  pub offset : ℕ
  pub size : ℕ

abbrev pub arch_size : Bool → ℕ
arch_size fat64 = if fat64 then 32 else 20

-- The offset and the size of an architecture; the loop over the bytes of the 64-bit form reads up to
-- `base + 23`.
unfoldable pub read_slice : Bytes → Bool → ℕ → Result Slice
read_slice bytes true base = do
  _ ← element bytes (base + 23)
  ok (record {
    offset = word64 big (load bytes (base + 8));
    size = word64 big (load bytes (base + 16));
  })
read_slice bytes false base = do
  offset ← read_be32 bytes (base + 8)
  size ← read_be32 bytes (base + 12)
  ok (record { offset = offset; size = size })

abbrev pub is_arm64 : ℕ → Bool
is_arm64 cputype = bit_and cputype 0xfeff_ffff == 12 && not (bit_and cputype 0x0100_0000 == 0)

-- `for (i = 0; i < nfat; ++i)` with `rounds` architectures left.
unfoldable pub arch_loop : Bytes → Bool → ℕ → ℕ → Slice → Result Slice
arch_loop bytes fat64 zero i chosen = ok chosen
arch_loop bytes fat64 (suc rounds) i chosen =
    let base = 8 + i * arch_size fat64 in
    let body = (do
      cputype ← read_be32 bytes base
      let arm64 = is_arm64 cputype
      place ← read_slice bytes fat64 base
      let rest =
          arch_loop bytes fat64 rounds (i + 1) (if chosen.size == 0 || arm64 then place else chosen)
      if arm64 then ok place else rest) in
    if ltb (length bytes) (base + arch_size fat64) then ok chosen else body

-- `thin.assign` with two iterators: outside the image it has no defined behaviour.
unfoldable pub assign : Bytes → ℕ → ℕ → Result Bytes
assign bytes offset size =
    if leb (offset + size) (length bytes) then ok (take size (drop offset bytes)) else aborted

-- The sum of the test wraps around at 64 bits.
unfoldable pub cut_slice : Bytes → Slice → Result Bytes
cut_slice bytes chosen = do
  reject (chosen.size == 0 || ltb (length bytes) (add64 chosen.offset chosen.size))
      (make_error malformed_input (text "fat slice out of bounds"))
  assign bytes chosen.offset chosen.size

abbrev pub is_fat64 : ℕ → Bool
is_fat64 magic = magic == 0xcafe_babf || magic == 0xbfba_feca

abbrev pub is_fat : ℕ → Bool
is_fat magic = (magic == 0xcafe_babe || magic == 0xbeba_feca) || is_fat64 magic

-- The branch of a fat file with the magic number `magic`.
unfoldable pub choose_slice : Bytes → ℕ → Result Bytes
choose_slice bytes magic = do
  nfat ← read_be32 bytes 4
  reject (nfat == 0 || ltb 64 nfat) (make_error malformed_input (text "implausible fat arch count"))
  chosen ← arch_loop bytes (is_fat64 magic) nfat 0 (record { offset = 0; size = 0 })
  cut_slice bytes chosen

unfoldable pub thin_image : Bytes → Result Bytes
thin_image bytes = do
  magic ← read_be32 bytes 0
  if is_fat magic then choose_slice bytes magic else ok bytes

pub record File : Type 0 where
  pub view : FileView
  pub object_images : List Bytes

unfoldable pub parse_bytes : Text → Bytes → Result File
parse_bytes source_name bytes = do
  reject (ltb (length bytes) 4) (make_error malformed_input (text "file too small for Mach-O"))
  thin ← thin_image bytes
  object ← parse_thin thin 0
  ok (record {
    view = record {
      source_name = source_name;
      format = Types.Format.mach_o;
      first_bytes = take 16 thin;
      objects = object ∷ [];
    };
    object_images = thin ∷ [];
  })

pub record MachoBinaryFile : Type 0 where
  pub view : FileView
  pub image : Bytes

abbrev pub front_image : List Bytes → Bytes
front_image [] = []
front_image (image ∷ images) = image

unfoldable pub open_bytes : Text → Bytes → Result MachoBinaryFile
open_bytes source_name bytes = do
  file ← parse_bytes source_name bytes
  ok (record { view = file.view; image = front_image file.object_images })

-- A section whose range passes the end of the image has no bytes.
unfoldable pub section_bytes : MachoBinaryFile → Section → Result SectionBytes
section_bytes b s =
    if ltb (length b.image) s.offset || ltb (length b.image - s.offset) s.size
    then ok (record {
      object_index = s.object_index;
      section_name = s.name;
      address = s.address;
      bytes = [];
    })
    else (do
      bytes ← slice b.image s.offset s.size
      ok (record {
        object_index = s.object_index;
        section_name = s.name;
        address = s.address;
        bytes = bytes;
      }))
