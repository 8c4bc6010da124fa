-- ===== src/Binary/Types.antt =====
-- include/roe/binary.hpp: the normalized view of a file.
use roe.Base.{ℕ, Bool, List}
use roe.Base.Text.{Text}

pub data Format : Type 0 where
  unknown elf mach_o mach_o_fat pe_coff archive : Format

pub data Architecture : Type 0 where
  unknown x86 x86_64 arm arm_thumb aarch64 risc_v32 risc_v64 mips32 mips32el : Architecture
  mips64 mips64el power_pc32 power_pc64 power_pc64le : Architecture

pub data AddressWidth : Type 0 where
  bits32 bits64 : AddressWidth

pub data Endianness : Type 0 where
  little big : Endianness

pub data ObjectKind : Type 0 where
  unknown relocatable executable shared_library static_archive object : ObjectKind

pub data SectionKind : Type 0 where
  unknown code plain_data read_only_data c_string debug relocation symbol_table : SectionKind

pub data SymbolBind : Type 0 where
  local global weak imported exported other : SymbolBind

pub data SymbolType : Type 0 where
  unknown no_type object function section file tls : SymbolType

pub data RelocationEncoding : Type 0 where
  rel rela coff mach_o : RelocationEncoding

pub record Section : Type 0 where
  pub name : Text
  pub object_index : ℕ
  pub index : ℕ
  pub kind : SectionKind
  pub address : ℕ
  pub offset : ℕ
  pub size : ℕ
  pub alignment : ℕ
  pub readable : Bool
  pub writable : Bool
  pub executable : Bool
  pub contains_strings : Bool

pub record Segment : Type 0 where
  pub name : Text
  pub address : ℕ
  pub offset : ℕ
  pub size : ℕ
  pub readable : Bool
  pub writable : Bool
  pub executable : Bool
  pub detail : Text

pub record Symbol : Type 0 where
  pub name : Text
  pub raw_name : Text
  pub object_index : ℕ
  pub address : ℕ
  pub size : ℕ
  pub section_index : ℕ
  pub bind : SymbolBind
  pub type : SymbolType
  pub defined : Bool
  pub dynamic : Bool
  pub synthetic : Bool
  pub library : Text

-- `addend` is an int64_t, kept as its bit pattern below 2 ^ 64.
pub record Relocation : Type 0 where
  pub section_name : Text
  pub object_index : ℕ
  pub offset : ℕ
  pub target_address : ℕ
  pub symbol_index : ℕ
  pub symbol_name : Text
  pub raw_symbol_name : Text
  pub type : ℕ
  pub addend : ℕ
  pub has_addend : Bool
  pub encoding : RelocationEncoding

pub record StringLiteral : Type 0 where
  pub object_index : ℕ
  pub address : ℕ
  pub size : ℕ
  pub value : Text

pub record Object : Type 0 where
  pub name : Text
  pub index : ℕ
  pub format : Format
  pub architecture : Architecture
  pub address_width : AddressWidth
  pub endianness : Endianness
  pub kind : ObjectKind
  pub entry : ℕ
  pub sections : List Section
  pub segments : List Segment
  pub symbols : List Symbol
  pub relocations : List Relocation
  pub strings : List StringLiteral
  pub libraries : List Text
  pub stripped : Bool

pub record FileView : Type 0 where
  pub source_name : Text
  pub format : Format
  pub first_bytes : List ℕ
  pub objects : List Object

pub record SectionBytes : Type 0 where
  pub object_index : ℕ
  pub section_name : Text
  pub address : ℕ
  pub bytes : List ℕ
