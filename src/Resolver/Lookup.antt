-- ===== src/Resolver/Lookup.antt =====
-- src/resolver/resolver.cpp: the lookups by address.
pub mod Laws
use roe.Base.{ℕ, ◌+◌, ◌-◌, Bool, true, false, ◌||◌, Option, none, some, ltb, ◌==◌, if◌then◌else◌}
use roe.Elf.Reader.{u64_max}
use roe.Resolver.Types.{Index, ResolvedSymbol, ResolvedReference}
use roe.Resolver.Search.{lower_bound, before_upper, at_address}

abbrev pub symbol_address : ResolvedSymbol → ℕ
symbol_address s = s.address

abbrev pub reference_address : ResolvedReference → ℕ
reference_address r = r.address

-- The end of a symbol, held at the highest address.
unfoldable pub symbol_end : ResolvedSymbol → ℕ
symbol_end s =
    if s.size == 0
    then s.address
    else if ltb (u64_max - s.address) s.size
    then u64_max
    else s.address + s.size

abbrev pub mark_exact : Bool → Option ResolvedSymbol → Option ResolvedSymbol
mark_exact b none = none
mark_exact b (some s) = some (record s { exact = b })

unfoldable pub symbol_at : Index → ℕ → Option ResolvedSymbol
symbol_at index address =
    mark_exact true
      (at_address symbol_address address (lower_bound symbol_address index.symbols address))

-- The last symbol at or below the address. The source returns it on both branches.
abbrev pub nearest : ℕ → Option ResolvedSymbol → Option ResolvedSymbol
nearest address none = none
nearest address (some s) =
    if s.size == 0 || ltb address (symbol_end s)
    then some (record s { exact = s.address == address })
    else some (record s { exact = s.address == address })

unfoldable pub nearest_symbol : Index → ℕ → Option ResolvedSymbol
nearest_symbol index address =
    nearest address (before_upper symbol_address none index.symbols address)

unfoldable pub relocation_at : Index → ℕ → Option ResolvedReference
relocation_at index address =
    at_address reference_address address (lower_bound reference_address index.relocations address)

-- The end of an instruction, held at the highest address.
abbrev pub instruction_end : ℕ → ℕ → ℕ
instruction_end address size =
    address + (if ltb (u64_max - address) size then u64_max - address else size)

abbrev pub below_end : ℕ → Option ResolvedReference → Option ResolvedReference
below_end end none = none
below_end end (some r) = if ltb r.address end then some r else none

-- The search behind the exact one, for an instruction of `size` bytes.
unfoldable pub relocation_inside : Index → ℕ → ℕ → Option ResolvedReference
relocation_inside index address size =
    if size == 0
    then none
    else below_end (instruction_end address size)
        (lower_bound reference_address index.relocations address)

abbrev pub or_else : Option ResolvedReference → Option ResolvedReference → Option ResolvedReference
or_else none other = other
or_else (some r) other = some r

unfoldable pub relocation_in_instruction : Index → ℕ → ℕ → Option ResolvedReference
relocation_in_instruction index address size =
    or_else (relocation_at index address) (relocation_inside index address size)
