-- ===== src/Elf/Symbols/Entries.antt =====
-- src/elf/elf.cpp: parse_symbol, and the loop of parse_symbols on the entries of a table.
use mathlib.Core.List.{append_assoc}
use roe.Base.{
  ℕ, zero, suc, ◌+◌, ◌*◌, ◌≤◌, ◌≡◌, refl, Bool, List, [], ◌∷◌, ◌++◌, length, length-append, arith,
}
use roe.Base.Text.{text}
use roe.Core.Result.{Result, ok, err, aborted, Returns, Returns-bind}
use roe.Elf.Types.{Class, elf32, elf64, IsImage, Header, ByteRange, Symbol}
use roe.Elf.Reader.{Reader, add64, mul64}
use roe.Elf.Reader.Bounds.{bind_u8, bind_u16, bind_u32, bind_u64, reach}
use roe.Elf.Reader.Tables.{entry_inside}
use roe.Elf.Strings.{string_from_table}
use roe.Elf.Strings.Safe.{Inside, string_from_table-Returns}
use roe.Elf.Symbols.{sym_size, read_symbol, parse_symbol, Pushed, symbol_loop}

read_symbol-Returns :
    (class : Class) (r : Reader) (offset : ℕ)
    → IsImage r.bytes
    → offset + sym_size class ≤ length r.bytes
    → Returns (λ _. Unit {0}) (read_symbol class r offset)
unfolding read_symbol
read_symbol-Returns elf64 r offset image fits =
    bind_u32 r image (λ _. Unit {0}) offset _ (omega arith)
      λ v0 _.
        bind_u8 r image (λ _. Unit {0}) (add64 offset 4) _ (reach r image offset 4 1 (omega arith))
          λ v1 _.
            bind_u16 r image (λ _. Unit {0}) (add64 offset 6) _
              (reach r image offset 6 2 (omega arith))
              λ v2 _.
                bind_u64 r image (λ _. Unit {0}) (add64 offset 8) _
                  (reach r image offset 8 8 (omega arith))
                  λ v3 _.
                    bind_u64 r image (λ _. Unit {0}) (add64 offset 16) _
                      (reach r image offset 16 8 (omega arith)) λ v4 _. tt
read_symbol-Returns elf32 r offset image fits =
    bind_u32 r image (λ _. Unit {0}) offset _ (omega arith)
      λ v0 _.
        bind_u32 r image (λ _. Unit {0}) (add64 offset 4) _ (reach r image offset 4 4 (omega arith))
          λ v1 _.
            bind_u32 r image (λ _. Unit {0}) (add64 offset 8) _
              (reach r image offset 8 4 (omega arith))
              λ v2 _.
                bind_u8 r image (λ _. Unit {0}) (add64 offset 12) _
                  (reach r image offset 12 1 (omega arith))
                  λ v3 _.
                    bind_u16 r image (λ _. Unit {0}) (add64 offset 14) _
                      (reach r image offset 14 2 (omega arith)) λ v4 _. tt

parse_symbol-Returns :
    (r : Reader) (h : Header) (strings : ByteRange) (offset : ℕ) (dynamic : Bool)
    → IsImage r.bytes
    → Inside r.bytes strings.data_pointer strings.size
    → offset + sym_size h.elf_class ≤ length r.bytes
    → Returns (λ _. Unit {0}) (parse_symbol r h strings offset dynamic)
unfolding parse_symbol
parse_symbol-Returns r h strings offset dynamic image inside fits =
    Returns-bind (λ _. Unit {0}) (λ _. Unit {0}) (read_symbol h.elf_class r offset) _
      (read_symbol-Returns h.elf_class r offset image fits)
      λ raw _.
        Returns-bind (λ _. Unit {0}) (λ _. Unit {0})
          (string_from_table r.bytes strings raw.name_offset (text "symbol string table")) _
          (string_from_table-Returns r.bytes strings raw.name_offset _ inside) λ name _. tt

-- The result of a run with the equation that gives it.
pub with_equation :
    {A : Type 0} (P : A → Type 0) (m : Result A) → Returns P m → Returns (λ a. P a × (m ≡ ok a)) m
with_equation P (ok a) h = (h, refl)
with_equation P (err e) h = tt
with_equation P aborted h = absurd h

module _ (r : Reader) (h : Header) (strings : ByteRange) (base entry_size : ℕ)
    (dynamic : Bool) where
  -- The symbols are those that parse_symbol reads from the entries of the table, from `k` on.
  unfoldable pub AreEntries : ℕ → List Symbol → Type 0
  AreEntries k [] = Unit {0}
  AreEntries k (s ∷ own) =
      (parse_symbol r h strings (add64 base (mul64 k entry_size)) dynamic ≡ ok s)
      × AreEntries (k + 1) own

  AreEntries-append :
      (k n : ℕ) (own : List Symbol) (s : Symbol)
      → k + length own ≡ n
      → AreEntries k own
      → parse_symbol r h strings (add64 base (mul64 n entry_size)) dynamic ≡ ok s
      → AreEntries k (own ++ (s ∷ []))
  unfolding AreEntries
  AreEntries-append k n [] s e all read = let same : k ≡ n = omega arith in (rw same read, tt)
  AreEntries-append k n (x ∷ own) s e all read =
      (all.0, AreEntries-append (k + 1) n own s (omega arith) all.1 read)

  -- `all` is what was there before, and then `own`, which has the first `n` entries.
  abbrev pub Pushes : List Symbol → ℕ → Pushed → Type 0
  Pushes prior n p = (p.1 ≡ prior ++ p.0) × (length p.0 ≡ n) × AreEntries 0 p.0

module _ (r : Reader) (h : Header) (strings : ByteRange) (base entry_size count : ℕ)
    (dynamic : Bool) (image : IsImage r.bytes)
    (inside : Inside r.bytes strings.data_pointer strings.size)
    (entries : sym_size h.elf_class ≤ entry_size)
    (table : base + count * entry_size ≤ length r.bytes) where
  abbrev Holds : List Symbol → ℕ → Pushed → Type 0
  Holds prior n p = Pushes r h strings base entry_size dynamic prior n p

  pub symbol_loop-Returns :
      (rounds entry : ℕ) (prior : List Symbol) (pushed : Pushed)
      → entry + rounds ≡ count
      → Holds prior entry pushed
      → Returns
          (Holds prior count)
          (symbol_loop r h strings base entry_size dynamic rounds entry pushed)
  unfolding symbol_loop
  symbol_loop-Returns zero entry prior pushed e (p, n, read) = (p, omega arith, read)
  symbol_loop-Returns (suc rounds) entry prior (own, all) e (p, n, read) =
      let fits =
        entry_inside base entry_size count (length r.bytes) table image.size_bound entry rounds e in
      let at = add64 base (mul64 entry entry_size) in
      Returns-bind (λ s. Unit {0} × (parse_symbol r h strings at dynamic ≡ ok s))
        (Holds prior count) (parse_symbol r h strings at dynamic) _
        (with_equation (λ _. Unit {0}) (parse_symbol r h strings at dynamic)
          (parse_symbol-Returns r h strings at dynamic image inside (omega (arith, fits))))
        λ symbol (_, same). symbol_loop-Returns rounds (entry + 1) prior _ (omega arith) (
          rw p (append_assoc prior own (symbol ∷ [])),
          omega (arith, length-append own (symbol ∷ [])),
          AreEntries-append r h strings base entry_size dynamic 0 entry own symbol (omega arith)
              read same,
        )
