-- ===== src/Elf/Header/Safe.antt =====
-- What parse_header promises of the header that it returns, on any image.
use roe.Base.{ℕ, ◌^◌, ◌≤◌, ◌<◌, length, get_or, arith, ltb→le}
use roe.Base.Text.{text}
use roe.Core.Error.{Error, make_error, malformed_input}
use roe.Core.Result.{Result, ◌>>=◌, or_error, Returns, Returns-bind, Returns-or_error, bind_reject}
use roe.Elf.Types.{Bytes, Class, elf32, elf64, IsImage, Header}
use roe.Elf.Reader.{Reader, u16, u32}
use roe.Elf.Reader.Windows.{element-ok, window-ok}
use roe.Elf.Reader.Bounds.{bind_u16, bind_u32, bind_u64, u16-Returns, u32-Returns, bind_range}
use roe.Elf.Header.{
  parse_header, parse_header_body, header_fields, check_header, class_of, endianness_of, ehdr_size,
  phdr_size, shdr_size,
}

-- The words of a header fit the members that hold them.
pub record HasWidths (h : Header) : Type 0 where
  pub entry_lt : h.entry < 2 ^ 64
  pub program_header_offset_lt : h.program_header_offset < 2 ^ 64
  pub section_header_offset_lt : h.section_header_offset < 2 ^ 64
  pub header_size_lt : h.header_size < 2 ^ 16
  pub program_header_entry_size_lt : h.program_header_entry_size < 2 ^ 16
  pub program_header_count_lt : h.program_header_count < 2 ^ 16
  pub section_header_entry_size_lt : h.section_header_entry_size < 2 ^ 16
  pub section_header_count_lt : h.section_header_count < 2 ^ 16
  pub section_name_index_lt : h.section_name_index < 2 ^ 16

-- An entry of a table that is not empty holds all that is read from it.
pub record IsChecked (h : Header) : Type 0 where
  pub widths : HasWidths h
  pub header_size_ge : ehdr_size h.elf_class ≤ h.header_size
  pub program_entries :
      0 < h.program_header_count → phdr_size h.elf_class ≤ h.program_header_entry_size
  pub section_entries :
      0 < h.section_header_count → shdr_size h.elf_class ≤ h.section_header_entry_size

module _ (r : Reader) (image : IsImage r.bytes) where
  header_fields-Returns :
      (class : Class) (type machine : ℕ)
      → ehdr_size class ≤ length r.bytes
      → Returns HasWidths (header_fields class r type machine)
  unfolding header_fields
  header_fields-Returns elf64 type machine fits =
      bind_u64 r image HasWidths 24 _ (omega arith) λ a ha.
        bind_u64 r image HasWidths 32 _ (omega arith) λ b hb.
          bind_u64 r image HasWidths 40 _ (omega arith) λ c hc.
            bind_u16 r image HasWidths 52 _ (omega arith) λ d hd.
              bind_u16 r image HasWidths 54 _ (omega arith) λ e he.
                bind_u16 r image HasWidths 56 _ (omega arith) λ f hf.
                  bind_u16 r image HasWidths 58 _ (omega arith) λ g hg.
                    bind_u16 r image HasWidths 60 _ (omega arith) λ h hh.
                      bind_u16 r image HasWidths 62 _ (omega arith) λ i hi. record {
                        entry_lt = omega arith;
                        program_header_offset_lt = omega arith;
                        section_header_offset_lt = omega arith;
                        header_size_lt = hd;
                        program_header_entry_size_lt = he;
                        program_header_count_lt = hf;
                        section_header_entry_size_lt = hg;
                        section_header_count_lt = hh;
                        section_name_index_lt = hi;
                      }
  header_fields-Returns elf32 type machine fits =
      bind_u32 r image HasWidths 24 _ (omega arith) λ a ha.
        bind_u32 r image HasWidths 28 _ (omega arith) λ b hb.
          bind_u32 r image HasWidths 32 _ (omega arith) λ c hc.
            bind_u16 r image HasWidths 40 _ (omega arith) λ d hd.
              bind_u16 r image HasWidths 42 _ (omega arith) λ e he.
                bind_u16 r image HasWidths 44 _ (omega arith) λ f hf.
                  bind_u16 r image HasWidths 46 _ (omega arith) λ g hg.
                    bind_u16 r image HasWidths 48 _ (omega arith) λ h hh.
                      bind_u16 r image HasWidths 50 _ (omega arith) λ i hi. record {
                        entry_lt = omega arith;
                        program_header_offset_lt = omega arith;
                        section_header_offset_lt = omega arith;
                        header_size_lt = hd;
                        program_header_entry_size_lt = he;
                        program_header_count_lt = hf;
                        section_header_entry_size_lt = hg;
                        section_header_count_lt = hh;
                        section_name_index_lt = hi;
                      }

check_header-Returns : (h : Header) → HasWidths h → Returns IsChecked (check_header h)
unfolding check_header
check_header-Returns h w = bind_reject IsChecked _ _ _ λ size.
    bind_reject IsChecked _ _ _ λ program. bind_reject IsChecked _ _ _ λ section. record {
      widths = w;
      header_size_ge = ltb→le _ _ size;
      program_entries = λ p. ground arith;
      section_entries = λ p. ground arith;
    }

class_of-Returns : (b : ℕ) → Returns (λ _. Unit {0}) (class_of b)
unfolding class_of
class_of-Returns b = ground arith

endianness_of-Returns : (b : ℕ) → Returns (λ _. Unit {0}) (endianness_of b)
unfolding endianness_of
endianness_of-Returns b = ground arith

-- The step of a read that may fail, whose failure gets an error of the caller's.
pub bind_word :
    {B : Type 0} (Q : B → Type 0) (e : Error) (m : Result ℕ) (f : ℕ → Result B) {n : ℕ}
    → Returns (λ v. v < n) m
    → ((v : ℕ) → v < n → Returns Q (f v))
    → Returns Q (or_error e m >>= f)
bind_word Q e m f {n} h k =
    Returns-bind (λ v. v < n) Q (or_error e m) f (Returns-or_error (λ v. v < n) e m h) k

parse_header_body-Returns :
    (r : Reader) (class : Class) → IsImage r.bytes → Returns IsChecked (parse_header_body r class)
unfolding parse_header_body
parse_header_body-Returns r class image =
    let unread = make_error malformed_input (text "failed to read ELF header") in
    bind_range IsChecked 0 (ehdr_size class) (length r.bytes) (text "ELF header") _ λ fits.
      bind_word IsChecked unread (u16 r 16) _ (u16-Returns r image 16) λ type ht.
        bind_word IsChecked unread (u16 r 18) _ (u16-Returns r image 18) λ machine hm.
          bind_word IsChecked unread (u32 r 20) _ (u32-Returns r image 20) λ version hv.
            bind_reject IsChecked _ _ _ λ current.
              Returns-bind HasWidths IsChecked (header_fields class r type machine) _
                (header_fields-Returns r image class type machine (omega arith))
                λ h w. check_header-Returns h w

-- On any image parse_header does not abort, and returns an error or a header. The words of that header
-- fit the members that hold them, its size is at least that of a file header of its class, and the
-- entries of each table that is not empty are at least as large as what is read from one.
pub parse_header-Returns : (bytes : Bytes) → IsImage bytes → Returns IsChecked (parse_header bytes)
unfolding parse_header
parse_header-Returns bytes image = bind_reject IsChecked _ _ _ λ small.
    let size : 16 ≤ length bytes = ltb→le _ _ small in
    rw
      (
        window-ok bytes 0 4 (omega arith) (omega arith),
        element-ok bytes 4 (omega arith),
        element-ok bytes 5 (omega arith),
        element-ok bytes 6 (omega arith),
      )
      (bind_reject IsChecked _ _ _ λ magic.
        Returns-bind (λ _. Unit {0}) IsChecked (class_of (get_or bytes 4 0)) _ (class_of-Returns _)
          λ class _.
            Returns-bind (λ _. Unit {0}) IsChecked (endianness_of (get_or bytes 5 0)) _
              (endianness_of-Returns _)
              λ endianness _.
                bind_reject IsChecked _ _ _ λ version. parse_header_body-Returns _ class image)
