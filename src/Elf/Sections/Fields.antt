-- ===== src/Elf/Sections/Fields.antt =====
-- A section header is read without a fault, and its words fit their members.
use roe.Base.{ℕ, ◌^◌, ◌<◌, arith}
use roe.Core.Result.{Returns}
use roe.Elf.Types.{Class, elf32, elf64, IsImage, Header, RawSection}
use roe.Elf.Header.Safe.{bind_word}
use roe.Elf.Reader.{Reader, add64, u32, u64}
use roe.Elf.Reader.Bounds.{u32-Returns, u64-Returns}
use roe.Elf.Sections.{unread, section_fields, parse_section_header}

-- The words of a section header fit the members that hold them.
pub record HasWidths (raw : RawSection) : Type 0 where
  pub offset_lt : raw.section.offset < 2 ^ 64
  pub size_lt : raw.section.size < 2 ^ 64
  pub link_lt : raw.link < 2 ^ 32
  pub info_lt : raw.info < 2 ^ 32
  pub entry_size_lt : raw.entry_size < 2 ^ 64

section_fields-Returns :
    (class : Class) (r : Reader) (offset index name type : ℕ)
    → IsImage r.bytes
    → Returns HasWidths (section_fields class r offset index name type)
unfolding section_fields
section_fields-Returns elf64 r offset index name type image =
    bind_word HasWidths (unread offset) (u64 r (add64 offset 8)) _
      (u64-Returns r image (add64 offset 8))
      λ flags h_flags.
        bind_word HasWidths (unread offset) (u64 r (add64 offset 16)) _
          (u64-Returns r image (add64 offset 16))
          λ address h_address.
            bind_word HasWidths (unread offset) (u64 r (add64 offset 24)) _
              (u64-Returns r image (add64 offset 24))
              λ start h_start.
                bind_word HasWidths (unread offset) (u64 r (add64 offset 32)) _
                  (u64-Returns r image (add64 offset 32))
                  λ size h_size.
                    bind_word HasWidths (unread offset) (u32 r (add64 offset 40)) _
                      (u32-Returns r image (add64 offset 40))
                      λ link h_link.
                        bind_word HasWidths (unread offset) (u32 r (add64 offset 44)) _
                          (u32-Returns r image (add64 offset 44))
                          λ info h_info.
                            bind_word HasWidths (unread offset) (u64 r (add64 offset 48)) _
                              (u64-Returns r image (add64 offset 48))
                              λ alignment h_alignment.
                                bind_word HasWidths (unread offset) (u64 r (add64 offset 56)) _
                                  (u64-Returns r image (add64 offset 56))
                                  λ entry h_entry. record {
                                    offset_lt = omega (arith, h_start);
                                    size_lt = omega (arith, h_size);
                                    link_lt = h_link;
                                    info_lt = h_info;
                                    entry_size_lt = omega (arith, h_entry);
                                  }
section_fields-Returns elf32 r offset index name type image =
    bind_word HasWidths (unread offset) (u32 r (add64 offset 8)) _
      (u32-Returns r image (add64 offset 8))
      λ flags h_flags.
        bind_word HasWidths (unread offset) (u32 r (add64 offset 12)) _
          (u32-Returns r image (add64 offset 12))
          λ address h_address.
            bind_word HasWidths (unread offset) (u32 r (add64 offset 16)) _
              (u32-Returns r image (add64 offset 16))
              λ start h_start.
                bind_word HasWidths (unread offset) (u32 r (add64 offset 20)) _
                  (u32-Returns r image (add64 offset 20))
                  λ size h_size.
                    bind_word HasWidths (unread offset) (u32 r (add64 offset 24)) _
                      (u32-Returns r image (add64 offset 24))
                      λ link h_link.
                        bind_word HasWidths (unread offset) (u32 r (add64 offset 28)) _
                          (u32-Returns r image (add64 offset 28))
                          λ info h_info.
                            bind_word HasWidths (unread offset) (u32 r (add64 offset 32)) _
                              (u32-Returns r image (add64 offset 32))
                              λ alignment h_alignment.
                                bind_word HasWidths (unread offset) (u32 r (add64 offset 36)) _
                                  (u32-Returns r image (add64 offset 36))
                                  λ entry h_entry. record {
                                    offset_lt = omega (arith, h_start);
                                    size_lt = omega (arith, h_size);
                                    link_lt = h_link;
                                    info_lt = h_info;
                                    entry_size_lt = omega (arith, h_entry);
                                  }

pub parse_section_header-Returns :
    (r : Reader) (h : Header) (offset index : ℕ)
    → IsImage r.bytes
    → Returns HasWidths (parse_section_header r h offset index)
unfolding parse_section_header
parse_section_header-Returns r h offset index image =
    bind_word HasWidths (unread offset) (u32 r offset) _ (u32-Returns r image offset) λ name _.
      bind_word HasWidths (unread offset) (u32 r (add64 offset 4)) _
        (u32-Returns r image (add64 offset 4))
        λ type _. section_fields-Returns h.elf_class r offset index name type image
