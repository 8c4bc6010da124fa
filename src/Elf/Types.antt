-- ===== src/Elf/Types.antt =====
-- include/roe/elf.hpp and the private structs and constants of src/elf/elf.cpp.
use roe.Base.{ℕ, Bool, List, ◌<◌, ◌^◌, length, All}
use roe.Base.Text.{Text}

pub data Class : Type 0 where
  elf32 elf64 : Class

pub data Endianness : Type 0 where
  little big : Endianness

pub data FileType : Type 0 where
  none relocatable executable shared_object core other : FileType

pub data Machine : Type 0 where
  unknown x86 x86_64 arm aarch64 risc_v mips power_pc power_pc64 other : Machine

pub data SymbolBind : Type 0 where
  local global weak other : SymbolBind

pub data SymbolType : Type 0 where
  no_type object function section file common tls other : SymbolType

-- `std::vector<std::uint8_t>`
abbrev pub Bytes : Type 0
Bytes = List ℕ

abbrev pub IsByte : ℕ → Type 0
IsByte b = b < 256

-- What the type of an image promises: its elements are bytes, and its size is at most PTRDIFF_MAX,
-- as for every std::vector<std::uint8_t>.
pub record IsImage (image : Bytes) : Type 0 where
  pub is_bytes : All IsByte image
  pub size_bound : length image < 2 ^ 63

pub record Section : Type 0 where
  pub name : Text
  pub index : ℕ
  pub type : ℕ
  pub flags : ℕ
  pub address : ℕ
  pub offset : ℕ
  pub size : ℕ
  pub alignment : ℕ
  pub executable : Bool

pub record Segment : Type 0 where
  pub type : ℕ
  pub flags : ℕ
  pub virtual_address : ℕ
  pub physical_address : ℕ
  pub offset : ℕ
  pub file_size : ℕ
  pub memory_size : ℕ
  pub alignment : ℕ

pub record Symbol : Type 0 where
  pub name : Text
  pub address : ℕ
  pub size : ℕ
  pub section_index : ℕ
  pub bind : SymbolBind
  pub type : SymbolType
  pub defined : Bool
  pub dynamic : Bool

-- `addend` is an int64_t, kept as its bit pattern below 2 ^ 64.
pub record Relocation : Type 0 where
  pub section_name : Text
  pub offset : ℕ
  pub type : ℕ
  pub symbol_index : ℕ
  pub symbol_name : Text
  pub addend : ℕ
  pub has_addend : Bool

pub record File : Type 0 where
  pub source_name : Text
  pub image : Bytes
  pub elf_class : Class
  pub endianness : Endianness
  pub file_type : FileType
  pub machine : Machine
  pub entry : ℕ
  pub sections : List Section
  pub segments : List Segment
  pub symbols : List Symbol
  pub relocations : List Relocation
  pub stripped : Bool

pub record Header : Type 0 where
  pub elf_class : Class
  pub endianness : Endianness
  pub type : ℕ
  pub machine : ℕ
  pub entry : ℕ
  pub program_header_offset : ℕ
  pub section_header_offset : ℕ
  pub header_size : ℕ
  pub program_header_entry_size : ℕ
  pub program_header_count : ℕ
  pub section_header_entry_size : ℕ
  pub section_header_count : ℕ
  pub section_name_index : ℕ

pub record RawSection : Type 0 where
  pub section : Section
  pub name_offset : ℕ
  pub link : ℕ
  pub info : ℕ
  pub entry_size : ℕ

-- The pointer of a ByteRange is a position of the image, or null.
pub data Pointer : Type 0 where
  null : Pointer
  at : ℕ → Pointer

pub record ByteRange : Type 0 where
  pub data_pointer : Pointer
  pub size : ℕ
