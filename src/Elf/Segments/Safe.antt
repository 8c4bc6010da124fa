-- ===== src/Elf/Segments/Safe.antt =====
-- Program headers are read without a fault, and each segment's bytes lie inside the image.
use roe.Base.{
  ℕ, zero, suc, ◌+◌, ◌*◌, ◌≤◌, ◌<◌, ◌≡◌, refl, List, length, All, arith, ◌==◌, Bool-cases, inl, inr,
}
use roe.Base.Text.{text}
use roe.Core.Result.{Returns, Returns-bind, bind_reject}
use roe.Elf.Types.{Bytes, Class, elf32, elf64, IsImage, Header, Segment}
use roe.Elf.Header.{phdr_size}
use roe.Elf.Sections.Safe.{HasProgramHeaders}
use roe.Elf.Reader.{Reader, add64, mul64}
use roe.Elf.Reader.Bounds.{bind_u32, bind_u64, bind_range, reach}
use roe.Elf.Reader.Tables.{total_size-eq, entry_inside}
use roe.Elf.Segments.{read_segment, segment_loop, segment_table, parse_segments}

-- The bytes of a segment lie inside the image.
abbrev pub IsInside : Bytes → Segment → Type 0
IsInside image s = s.offset + s.file_size ≤ length image

read_segment-Returns :
    (class : Class) (r : Reader) (offset : ℕ)
    → IsImage r.bytes
    → offset + phdr_size class ≤ length r.bytes
    → Returns (λ _. Unit {0}) (read_segment class r offset)
unfolding read_segment
read_segment-Returns elf64 r offset image fits =
    bind_u32 r image (λ _. Unit {0}) offset _ (omega arith)
      λ v0 _.
        bind_u32 r image (λ _. Unit {0}) (add64 offset 4) _ (reach r image offset 4 4 (omega arith))
          λ v1 _.
            bind_u64 r image (λ _. Unit {0}) (add64 offset 8) _
              (reach r image offset 8 8 (omega arith))
              λ v2 _.
                bind_u64 r image (λ _. Unit {0}) (add64 offset 16) _
                  (reach r image offset 16 8 (omega arith))
                  λ v3 _.
                    bind_u64 r image (λ _. Unit {0}) (add64 offset 24) _
                      (reach r image offset 24 8 (omega arith))
                      λ v4 _.
                        bind_u64 r image (λ _. Unit {0}) (add64 offset 32) _
                          (reach r image offset 32 8 (omega arith))
                          λ v5 _.
                            bind_u64 r image (λ _. Unit {0}) (add64 offset 40) _
                              (reach r image offset 40 8 (omega arith))
                              λ v6 _.
                                bind_u64 r image (λ _. Unit {0}) (add64 offset 48) _
                                  (reach r image offset 48 8 (omega arith)) λ v7 _. tt
read_segment-Returns elf32 r offset image fits =
    bind_u32 r image (λ _. Unit {0}) offset _ (omega arith)
      λ v0 _.
        bind_u32 r image (λ _. Unit {0}) (add64 offset 4) _ (reach r image offset 4 4 (omega arith))
          λ v1 _.
            bind_u32 r image (λ _. Unit {0}) (add64 offset 8) _
              (reach r image offset 8 4 (omega arith))
              λ v2 _.
                bind_u32 r image (λ _. Unit {0}) (add64 offset 12) _
                  (reach r image offset 12 4 (omega arith))
                  λ v3 _.
                    bind_u32 r image (λ _. Unit {0}) (add64 offset 16) _
                      (reach r image offset 16 4 (omega arith))
                      λ v4 _.
                        bind_u32 r image (λ _. Unit {0}) (add64 offset 20) _
                          (reach r image offset 20 4 (omega arith))
                          λ v5 _.
                            bind_u32 r image (λ _. Unit {0}) (add64 offset 24) _
                              (reach r image offset 24 4 (omega arith))
                              λ v6 _.
                                bind_u32 r image (λ _. Unit {0}) (add64 offset 28) _
                                  (reach r image offset 28 4 (omega arith)) λ v7 _. tt

-- `rounds` entries from the entry `i` on: as many segments, each inside the image.
abbrev pub AreInside : Bytes → ℕ → List Segment → Type 0
AreInside image n segments = All (IsInside image) segments × (length segments ≡ n)

module _ (r : Reader) (h : Header) (image : IsImage r.bytes)
    (entries : phdr_size h.elf_class ≤ h.program_header_entry_size)
    (table : h.program_header_offset + h.program_header_count * h.program_header_entry_size
      ≤ length r.bytes) where
  segment_loop-Returns :
      (rounds i : ℕ)
      → i + rounds ≡ h.program_header_count
      → Returns (AreInside r.bytes rounds) (segment_loop r h rounds i)
  unfolding segment_loop
  segment_loop-Returns zero i e = (tt, refl)
  segment_loop-Returns (suc rounds) i e =
      let inside =
        entry_inside h.program_header_offset h.program_header_entry_size h.program_header_count
          (length r.bytes) table image.size_bound i rounds e in
      Returns-bind (λ _. Unit {0}) (AreInside r.bytes (suc rounds))
        (read_segment h.elf_class r
          (add64 h.program_header_offset (mul64 i h.program_header_entry_size)))
        _
        (read_segment-Returns h.elf_class r
          (add64 h.program_header_offset (mul64 i h.program_header_entry_size)) image
          (omega (arith, inside)))
        λ segment _.
          bind_range (AreInside r.bytes (suc rounds)) segment.offset segment.file_size
            (length r.bytes) (text "segment") _
            λ fits.
              Returns-bind (AreInside r.bytes rounds) (AreInside r.bytes (suc rounds))
                (segment_loop r h rounds (i + 1)) _
                (segment_loop-Returns rounds (i + 1) (omega arith))
                λ rest all. ((fits, all.0), omega (arith, all.1))

segment_table-Returns :
    (r : Reader) (h : Header)
    → IsImage r.bytes
    → HasProgramHeaders h
    → 0 < h.program_header_count
    → Returns (AreInside r.bytes h.program_header_count) (segment_table r h)
unfolding segment_table
segment_table-Returns r h image p some =
    bind_reject (AreInside r.bytes h.program_header_count) _ _ _ λ _.
      bind_reject (AreInside r.bytes h.program_header_count) _ _ _ λ _.
        bind_range (AreInside r.bytes h.program_header_count) h.program_header_offset
          (mul64 h.program_header_count h.program_header_entry_size) (length r.bytes)
          (text "program header table") _
          λ fits.
            segment_loop-Returns r h image (p.program_entries some)
              (rw
                (total_size-eq h.program_header_count h.program_header_entry_size
                  p.program_header_count_lt p.program_header_entry_size_lt)
                at fits)
              h.program_header_count 0 (omega arith)

-- For an image and a header whose program header fields fit, with entries large enough where there
-- are any, parse_segments does not abort. It returns an error, or as many segments as the header
-- counts, and the file bytes of each of them lie inside the image.
pub parse_segments-Returns :
    (image : Bytes) (h : Header)
    → IsImage image
    → HasProgramHeaders h
    → Returns (AreInside image h.program_header_count) (parse_segments image h)
unfolding parse_segments
parse_segments-Returns image h i p = elim (Bool-cases (h.program_header_count == 0)) [
  | inl e ↦ rw e (tt, ground arith)
  | inr e ↦ rw e (segment_table-Returns _ h i p (ground arith))
]
