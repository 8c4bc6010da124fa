-- ===== src/Elf/Adapter/Dynamic.antt =====
-- src/elf/elf.cpp: segment_type_name and populate_dynamic.
pub mod Safe
use roe.Base.{
  ℕ, zero, suc, ◌+◌, ◌-◌, ◌/◌, Bool, true, false, ◌&&◌, ◌||◌, not, Option, none, some, List, [],
  ◌∷◌, ◌++◌, length, map, ltb, ◌==◌, if◌then◌else◌,
}
use roe.Base.Text.{Text, text, is_empty}
use roe.Core.Result.{Result, ok, err, aborted, ◌>>=◌, value, element}
use roe.Binary.Types
use roe.Elf.Types.{Bytes, Class, elf32, elf64, File, Section, Segment}
use roe.Elf.Reader.{Reader, add64, mul64, range_within, u32, u64, i32, i64}
use roe.Elf.Parse.{first_section}
use roe.Elf.Adapter.{has_flag}

unfoldable pub segment_type_name : ℕ → Text
segment_type_name type =
    if type == 0
    then text "NULL"
    else if type == 1
    then text "LOAD"
    else if type == 2
    then text "DYNAMIC"
    else if type == 3
    then text "INTERP"
    else if type == 4
    then text "NOTE"
    else if type == 6
    then text "PHDR"
    else if type == 7
    then text "TLS"
    else if type == 0x6474e550
    then text "GNU_EH_FRAME"
    else if type == 0x6474e551
    then text "GNU_STACK"
    else if type == 0x6474e552
    then text "GNU_RELRO"
    else if type == 0x6474e553
    then text "GNU_PROPERTY"
    else text "OTHER"

abbrev pub mapped_segment : Segment → Types.Segment
mapped_segment s = record {
  name = segment_type_name s.type;
  address = s.virtual_address;
  offset = s.offset;
  size = s.memory_size;
  readable = has_flag s.flags 4;
  writable = has_flag s.flags 2;
  executable = has_flag s.flags 1;
  detail = [];
}

abbrev pub entry_size : Class → ℕ
entry_size elf64 = 16
entry_size elf32 = 8

-- The tag and the value of an entry.
unfoldable pub read_dynamic : Class → Reader → ℕ → Result (ℕ × ℕ)
read_dynamic elf64 r offset = do
  tag ← value (i64 r offset)
  content ← value (u64 r (add64 offset 8))
  ok (tag, content)
read_dynamic elf32 r offset = do
  tag ← value (i32 r offset)
  content ← value (u32 r (add64 offset 4))
  ok (tag, content)

-- `while (p < end && file.image[p] != 0)` with `rounds` positions left below the end.
unfoldable pub library_name : Bytes → ℕ → ℕ → Result Text
library_name image zero p = ok []
library_name image (suc rounds) p = do
  byte ← element image p
  let rest = library_name image rounds (p + 1)
  if byte == 0 then ok [] else (rest >>= λ name. ok (byte ∷ name))

-- The body of the branch of DT_NEEDED.
unfoldable pub add_library : Bytes → Section → ℕ → List Text → Result (List Text)
add_library image dynstr v libraries = do
  let p = add64 dynstr.offset v
  let end = add64 dynstr.offset dynstr.size
  library ← library_name image (end - p) p
  ok (if is_empty library then libraries else libraries ++ (library ∷ []))

unfoldable pub visit_entry : Bytes → Section → ℕ → ℕ → List Text → Result (List Text)
visit_entry image dynstr tag v libraries =
    if tag == 1 && ltb v dynstr.size then add_library image dynstr v libraries else ok libraries

-- `for (i = 0; i < count; ++i)` with `rounds` entries left.
unfoldable pub needed_loop :
    Class → Reader → Section → Section → ℕ → ℕ → List Text → Result (List Text)
needed_loop class r dynamic dynstr zero i libraries = ok libraries
needed_loop class r dynamic dynstr (suc rounds) i libraries = do
  (tag, v) ← read_dynamic class r (add64 dynamic.offset (mul64 i (entry_size class)))
  libraries' ← visit_entry r.bytes dynstr tag v libraries
  let rest = needed_loop class r dynamic dynstr rounds (i + 1) libraries'
  if tag == 0 then ok libraries else rest

unfoldable pub libraries_of : File → Option Section → Option Section → Result (List Text)
libraries_of file none dynstr = ok []
libraries_of file (some dynamic) none = ok []
libraries_of file (some dynamic) (some dynstr) =
    if not (range_within dynamic.offset dynamic.size (length file.image))
      || not (range_within dynstr.offset dynstr.size (length file.image))
    then ok []
    else needed_loop file.elf_class (record { bytes = file.image; endianness = file.endianness })
        dynamic dynstr (dynamic.size / entry_size file.elf_class) 0 []

-- The segments and the libraries that are added to an object that has none.
unfoldable pub populate_dynamic : File → Result (List Types.Segment × List Text)
populate_dynamic file = do
  libraries ←
      libraries_of file (first_section (text ".dynamic") file.sections)
        (first_section (text ".dynstr") file.sections)
  ok (map mapped_segment file.segments, libraries)
