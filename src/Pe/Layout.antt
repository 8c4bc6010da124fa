-- ===== src/Pe/Layout.antt =====
-- src/pe/pe.cpp, parse_bytes: the loops over the section table and the data directories.
pub mod Safe
use roe.Base.{
  ℕ, zero, suc, ◌+◌, ◌*◌, bit_and, Bool, true, false, ◌&&◌, not, List, [], ◌∷◌, ◌++◌, length, ltb,
  ◌==◌, if◌then◌else◌,
}
use roe.Base.Text.{Text, text}
use roe.Core.Result.{Result, ok, ◌>>=◌, element}
use roe.Binary.Types.{Section, SectionKind, Segment}
use roe.Elf.Types.{Bytes}
use roe.Elf.Reader.{add64}
use roe.Pe.Reader.{Read, u32, fixed_string, SectionMap}

abbrev pub has_flag : ℕ → ℕ → Bool
has_flag flags bit = not (bit_and flags bit == 0)

unfoldable pub section_kind : Bool → Bool → SectionKind
section_kind true writable = SectionKind.code
section_kind false false = SectionKind.read_only_data
section_kind false true = SectionKind.plain_data

unfoldable pub pe_section : Text → ℕ → ℕ → ℕ → ℕ → ℕ → Section
pe_section name i address raw rawsize flags = record {
  name = name;
  object_index = 0;
  index = i;
  kind = section_kind (has_flag flags 0x2000_0020) (has_flag flags 0x8000_0000);
  address = address;
  offset = raw;
  size = rawsize;
  alignment = 0;
  readable = has_flag flags 0x4000_0000;
  writable = has_flag flags 0x8000_0000;
  executable = has_flag flags 0x2000_0020;
  contains_strings = false;
}

-- The section whose header is at `so`, and its place in the file.
unfoldable pub read_section : Bytes → ℕ → ℕ → ℕ → Bool → Read (Section × SectionMap)
read_section bytes image_base so i flag = do
  (name, flag1) ← fixed_string bytes flag so 8
  (vsize, flag2) ← u32 bytes flag1 (so + 8)
  (va, flag3) ← u32 bytes flag2 (so + 12)
  (rawsize, flag4) ← u32 bytes flag3 (so + 16)
  (raw, flag5) ← u32 bytes flag4 (so + 20)
  (flags, flag6) ← u32 bytes flag5 (so + 36)
  ok (
    (
      pe_section name i (add64 image_base va) raw rawsize flags,
      record { va = va; vsize = vsize; raw = raw; rawsize = rawsize },
    ),
    flag6,
  )

-- `for (i = 0; i < num_sections; ++i)` with `rounds` headers left: the sections from `i` on.
unfoldable pub section_loop : Bytes → ℕ → ℕ → ℕ → ℕ → Bool → Read (List Section × List SectionMap)
section_loop bytes image_base sect_table zero i flag = ok (([], []), flag)
section_loop bytes image_base sect_table (suc rounds) i flag =
    let body = (do
      ((section, place), flag') ← read_section bytes image_base (sect_table + i * 40) i flag
      ((sections, places), flag'') ← section_loop bytes image_base sect_table rounds (i + 1) flag'
      ok ((section ∷ sections, place ∷ places), flag'')) in
    if ltb (length bytes) (sect_table + i * 40 + 40) then ok (([], []), flag) else body

unfoldable pub dir_names : List Text
dir_names =
    text "export"
    ∷ text "import"
    ∷ text "resource"
    ∷ text "exception"
    ∷ text "certificate"
    ∷ text "basereloc"
    ∷ text "debug"
    ∷ text "architecture"
    ∷ text "globalptr"
    ∷ text "tls"
    ∷ text "load_config"
    ∷ text "bound_import"
    ∷ text "iat"
    ∷ text "delay_import"
    ∷ text "clr_runtime"
    ∷ text "reserved"
    ∷ []

-- What the loop over the data directories changes.
pub record Directories : Type 0 where
  pub segments : List Segment
  pub import_rva : ℕ
  pub export_rva : ℕ

abbrev pub pe_segment : Text → ℕ → ℕ → Segment
pe_segment name address size = record {
  name = name;
  address = address;
  offset = 0;
  size = size;
  readable = false;
  writable = false;
  executable = false;
  detail = text "data directory";
}

unfoldable pub add_directory : ℕ → ℕ → ℕ → ℕ → Text → Directories → Directories
add_directory image_base i rva size name d = record {
  segments = d.segments ++ (pe_segment name (add64 image_base rva) size ∷ []);
  import_rva = if i == 1 then rva else d.import_rva;
  export_rva = if i == 0 then rva else d.export_rva;
}

abbrev pub visit_directory : ℕ → ℕ → ℕ → ℕ → Directories → Result Directories
visit_directory image_base i rva size d =
    if rva == 0 && size == 0
    then ok d
    else (do name ← element dir_names i; ok (add_directory image_base i rva size name d))

-- `for (i = 0; i < dirs; ++i)` with `rounds` directories left.
unfoldable pub directory_loop : Bytes → ℕ → ℕ → ℕ → ℕ → Bool → Directories → Read Directories
directory_loop bytes image_base datadir_off zero i flag d = ok (d, flag)
directory_loop bytes image_base datadir_off (suc rounds) i flag d = do
  (rva, flag1) ← u32 bytes flag (datadir_off + i * 8)
  (size, flag2) ← u32 bytes flag1 (datadir_off + i * 8 + 4)
  d' ← visit_directory image_base i rva size d
  directory_loop bytes image_base datadir_off rounds (i + 1) flag2 d'
