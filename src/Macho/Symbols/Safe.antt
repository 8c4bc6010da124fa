-- ===== src/Macho/Symbols/Safe.antt =====
-- The symbol table is read without a fault.
use roe.Base.{
  ℕ, zero, suc, ◌+◌, ◌-◌, ◌*◌, ◌/◌, ◌%◌, ◌^◌, ◌≤◌, ◌<◌, ◌≡◌, refl, bit_and, Bool, true, false, ◌&&◌,
  ◌||◌, not, List, [], length, length-append, All, All-append, ltb, leb, ◌==◌, arith, Bool-cases,
  inl, inr,
}
use roe.Base.Text.{Text, is_empty}
use roe.Core.Result.{element-eq, Returns, Returns-bind, Returns-weaken}
use roe.Binary.Types.{Symbol, SymbolBind}
use roe.Elf.Types.{Bytes, IsImage, Endianness}
use roe.Macho.Reader.Laws.{bind_u8, bind_u16, bind_u32}
use roe.Macho.Commands.{Symtab}
use roe.Macho.Commands.Safe.{bind_wide}
use roe.Macho.Symbols.{
  Nlist, nlist_size, is_temporary, display_name, is_external, mach_bind, mach_symbol, library_at,
  import_library, read_nlist, symbol_name, visit_nlist, nlist_loop, parse_symtab,
}

abbrev pub is_imported : SymbolBind → Bool
is_imported SymbolBind.imported = true
is_imported _ = false

-- A symbol has a name that is not an assembler temporary's, is shown without its leading underscore,
-- and is defined if it is not imported.
abbrev pub IsListed : Symbol → Type 0
IsListed s =
    (is_empty s.raw_name ≡ false)
    × (is_temporary s.raw_name ≡ false)
    × (s.name ≡ display_name s.raw_name)
    × (s.defined ≡ not (is_imported s.bind))

-- At most `n` symbols, each listed.
abbrev pub AreListed : ℕ → List Symbol → Type 0
AreListed n symbols = (length symbols ≤ n) × All IsListed symbols

mach_bind-imported : (type : ℕ) → not (bit_and type 0x0e == 0) ≡ not (is_imported (mach_bind type))
unfolding mach_bind
mach_bind-imported type = elim (Bool-cases (bit_and type 0x0e == 0)) [
  | inl e ↦ rw e refl
  | inr e ↦ elim (Bool-cases (bit_and type 0x0e == 0x0e && is_external type)) [
    | inl f ↦ rw (e, f) refl
    | inr f ↦ elim (Bool-cases (is_external type)) [
      | inl g ↦ rw (e, f, g) refl
      | inr g ↦ rw (e, f, g) refl
    ]
  ]
]

mach_symbol-IsListed :
    (index : ℕ) (name : Text) (n : Nlist) (sect : ℕ) (library : Text)
    → is_empty name ≡ false
    → is_temporary name ≡ false
    → IsListed (mach_symbol index name n sect library)
unfolding mach_symbol
mach_symbol-IsListed index name n sect library e f = (e, f, refl, mach_bind-imported n.type)

import_library-Returns :
    (libraries : List Text) (n : Nlist) → Returns (λ _. Unit {0}) (import_library libraries n)
unfolding import_library
import_library-Returns libraries n = elim (Bool-cases (bit_and n.type 0x0e == 0)) [
  | inl e ↦ rw e (library_at-Returns (n.desc / 256 % 256))
  | inr e ↦ rw e tt
]
  where
    library_at-Returns : (ordinal : ℕ) → Returns (λ _. Unit {0}) (library_at libraries ordinal)
    library_at-Returns ordinal =
        elim (Bool-cases (leb 1 ordinal && leb ordinal (length libraries))) [
          | inl f ↦
              let (library, at, _) = element-eq libraries (ordinal - 1) (ground arith) in
              rw (f, at) tt
          | inr f ↦ rw f tt
        ]

module _ (bytes : Bytes) (image : IsImage bytes) where
  visit_nlist-Returns :
      (m index : ℕ) (libraries : List Text) (symtab : Symtab) (off : ℕ) (n : Nlist) (flag : Bool)
      (symbols : List Symbol)
      → off < 2 ^ 63
      → AreListed m symbols
      → Returns
          (λ p. AreListed (suc m) p.0)
          (visit_nlist bytes index libraries symtab off n flag symbols)
  unfolding visit_nlist
  visit_nlist-Returns m index libraries symtab off n flag symbols h (few, all) =
      let name = symbol_name bytes symtab n.strx in
      elim (Bool-cases (not (bit_and n.type 0xe0 == 0) || (is_empty name || is_temporary name))) [
        | inl e ↦ rw e (omega arith, all)
        | inr e ↦ rw e (
            bind_u8 _ bytes flag (off + 5) (omega arith) _ λ sect flag'.
              Returns-bind (λ _. Unit {0}) (λ p. AreListed (suc m) p.0) (import_library libraries n)
                _ (import_library-Returns libraries n)
                λ library _. (
                  omega (arith, length-append {0} symbols),
                  All-append IsListed symbols _ all (
                    mach_symbol-IsListed index name n sect library (ground arith) (ground arith),
                    tt,
                  ),
                ))
      ]

  module _ (order : Endianness) where
    read_nlist-Returns :
        (is64 : Bool) (off : ℕ) (flag : Bool)
        → off < 2 ^ 63
        → Returns (λ _. Unit {0}) (read_nlist order bytes is64 off flag)
    read_nlist-Returns is64 off flag h =
        bind_u32 _ bytes flag off (omega arith) _ order image λ strx flag1 _.
          bind_u8 _ bytes flag1 (off + 4) (omega arith) _ λ type flag2.
            bind_u16 _ bytes flag2 (off + 6) (omega arith) _ order λ desc flag3.
              bind_wide bytes image order _ is64 flag3 (off + 8) _ (omega arith) λ value flag4. tt

    nlist_near :
        (is64 : Bool) (symoff i : ℕ)
        → symoff < 2 ^ 32
        → i < 5000000
        → symoff + i * nlist_size is64 < 2 ^ 63
    nlist_near true symoff i h few = omega arith
    nlist_near false symoff i h few = omega arith

    nlist_loop-Returns :
        (m index : ℕ) (libraries : List Text) (symtab : Symtab) (is64 : Bool) (rounds i : ℕ)
        (flag : Bool) (symbols : List Symbol)
        → symtab.symoff < 2 ^ 32
        → i + rounds ≤ 5000000
        → AreListed m symbols
        → Returns
            (λ p. AreListed (m + rounds) p.0)
            (nlist_loop order bytes index libraries symtab is64 rounds i flag symbols)
    unfolding nlist_loop
    nlist_loop-Returns m index libraries symtab is64 zero i flag symbols word few (l, all) =
        (omega arith, all)
    nlist_loop-Returns m index libraries symtab is64 (suc rounds) i flag symbols word few (l, all) =
        let near = nlist_near is64 symtab.symoff i word (omega arith) in
        elim (Bool-cases
          (ltb (length bytes) (symtab.symoff + i * nlist_size is64 + nlist_size is64))) [
            | inl e ↦ rw e (omega arith, all)
            | inr e ↦ rw e (
                Returns-bind (λ _. Unit {0}) (λ p. AreListed (m + suc rounds) p.0) _ _
                  (read_nlist-Returns is64 (symtab.symoff + i * nlist_size is64) flag near)
                  λ (n, flag1) _.
                    Returns-bind (λ p. AreListed (suc m) p.0) (λ p. AreListed (m + suc rounds) p.0)
                      _ _
                      (visit_nlist-Returns m index libraries symtab
                        (symtab.symoff + i * nlist_size is64) n flag1 symbols near (l, all))
                      λ (symbols', flag2) listed.
                        Returns-weaken (λ p. AreListed (suc m + rounds) p.0)
                          (λ p. AreListed (m + suc rounds) p.0) _
                          (nlist_loop-Returns (suc m) index libraries symtab is64 rounds (i + 1)
                            flag2 symbols' word (omega arith) listed)
                          λ p (fewer, all'). (omega arith, all'))
          ]

    pub parse_symtab-Returns :
        (index : ℕ) (libraries : List Text) (symtab : Symtab) (is64 flag : Bool)
        → symtab.symoff < 2 ^ 32
        → Returns
            (λ p. AreListed 5000000 p.0)
            (parse_symtab order bytes index libraries symtab is64 flag)
    unfolding parse_symtab
    parse_symtab-Returns index libraries symtab is64 flag word =
        elim (Bool-cases (symtab.present && leb symtab.nsyms 5000000)) [
          | inl e ↦ rw e (
              Returns-weaken (λ p. AreListed (0 + symtab.nsyms) p.0) (λ p. AreListed 5000000 p.0) _
                (nlist_loop-Returns 0 index libraries symtab is64 symtab.nsyms 0 flag [] word
                  (ground arith) (omega arith, tt))
                λ p (fewer, all). (ground arith, all))
          | inr e ↦ rw e (omega arith, tt)
        ]
