-- ===== src/Elf/Segments.antt =====
-- src/elf/elf.cpp: parse_segments.
pub mod Safe
use roe.Base.{
  ℕ, zero, suc, ◌+◌, ◌/◌, Bool, true, false, not, List, [], ◌∷◌, length, ◌==◌, if◌then◌else◌,
}
use roe.Base.Text.{text}
use roe.Core.Error.{make_error, malformed_input}
use roe.Core.Result.{Result, ok, ◌>>=◌, ◌>>◌, reject, value}
use roe.Elf.Types.{Bytes, Class, elf32, elf64, Header, Segment}
use roe.Elf.Reader.{Reader, add64, mul64, validate_range, u32, u64}

-- The reads of each class. The source takes each value without a look at its error.
unfoldable pub read_segment : Class → Reader → ℕ → Result Segment
read_segment elf64 r offset = do
  type ← value (u32 r offset)
  flags ← value (u32 r (add64 offset 4))
  file_offset ← value (u64 r (add64 offset 8))
  virtual_address ← value (u64 r (add64 offset 16))
  physical_address ← value (u64 r (add64 offset 24))
  file_size ← value (u64 r (add64 offset 32))
  memory_size ← value (u64 r (add64 offset 40))
  alignment ← value (u64 r (add64 offset 48))
  ok (record {
    type = type;
    flags = flags;
    virtual_address = virtual_address;
    physical_address = physical_address;
    offset = file_offset;
    file_size = file_size;
    memory_size = memory_size;
    alignment = alignment;
  })
read_segment elf32 r offset = do
  type ← value (u32 r offset)
  file_offset ← value (u32 r (add64 offset 4))
  virtual_address ← value (u32 r (add64 offset 8))
  physical_address ← value (u32 r (add64 offset 12))
  file_size ← value (u32 r (add64 offset 16))
  memory_size ← value (u32 r (add64 offset 20))
  flags ← value (u32 r (add64 offset 24))
  alignment ← value (u32 r (add64 offset 28))
  ok (record {
    type = type;
    flags = flags;
    virtual_address = virtual_address;
    physical_address = physical_address;
    offset = file_offset;
    file_size = file_size;
    memory_size = memory_size;
    alignment = alignment;
  })

-- `for (i = 0; i < program_header_count; ++i)` with `rounds` entries left.
unfoldable pub segment_loop : Reader → Header → ℕ → ℕ → Result (List Segment)
segment_loop r h zero i = ok []
segment_loop r h (suc rounds) i = do
  segment ←
      read_segment h.elf_class r
        (add64 h.program_header_offset (mul64 i h.program_header_entry_size))
  validate_range segment.offset segment.file_size (length r.bytes) (text "segment")
  rest ← segment_loop r h rounds (i + 1)
  ok (segment ∷ rest)

unfoldable pub segment_table : Reader → Header → Result (List Segment)
segment_table r h = do
  reject (h.program_header_entry_size == 0)
      (make_error malformed_input (text "program header entry size is zero"))
  let total_size = mul64 h.program_header_count h.program_header_entry_size
  reject (not (total_size / h.program_header_count == h.program_header_entry_size))
      (make_error malformed_input (text "program header table size overflows"))
  validate_range h.program_header_offset total_size (length r.bytes) (text "program header table")
  segment_loop r h h.program_header_count 0

unfoldable pub parse_segments : Bytes → Header → Result (List Segment)
parse_segments image h =
    if h.program_header_count == 0
    then ok []
    else segment_table (record { bytes = image; endianness = h.endianness }) h
