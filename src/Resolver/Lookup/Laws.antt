-- ===== src/Resolver/Lookup/Laws.antt =====
-- What the lookups answer on an index in ascending order.
use roe.Base.{
  Elem, ℕ, ◌+◌, ◌^◌, min, ◌≤◌, ◌<◌, ◌≡◌, ◌≢◌, refl, ◌⊎◌, inl, inr, true, ◌||◌, Option, none, some,
  List, [], ◌∷◌, All, arith, ltb, ◌==◌, ltb→lt, ltb→le, ==→eq, ==→ne, Bool-cases, if◌then◌else◌,
}
use roe.Elf.Reader.{u64_max}
use roe.Resolver.Types.{Index, ResolvedSymbol, ResolvedReference}
use roe.Resolver.Search.{lower_bound, before_upper, at_address, Ascending}
use roe.Resolver.Search.Laws.{
  IsAt, IsFloor, IsCeiling, lower_bound-IsCeiling, before_upper-IsFloor, IsCeiling-IsAt,
}
use roe.Resolver.Lookup.{
  symbol_address, reference_address, symbol_end, symbol_at, nearest_symbol, nearest, relocation_at,
  relocation_in_instruction, relocation_inside, mark_exact, instruction_end, below_end, or_else,
}

-- The vectors of the index are in ascending order of address.
pub record IsOrdered (index : Index) : Type 0 where
  pub symbols_ordered : Ascending symbol_address 0 index.symbols
  pub relocations_ordered : Ascending reference_address 0 index.relocations

abbrev pub IsExactAt : ℕ → List ResolvedSymbol → Option ResolvedSymbol → Type 0
IsExactAt a symbols none = All (λ s. s.address ≢ a) symbols
IsExactAt a symbols (some r) =
    (s : ResolvedSymbol) × Elem s symbols × (s.address ≡ a) × (r ≡ record s { exact = true })

IsAt-exact :
    (a : ℕ) (symbols : List ResolvedSymbol) (o : Option ResolvedSymbol)
    → IsAt symbol_address a symbols o
    → IsExactAt a symbols (mark_exact true o)
IsAt-exact a symbols none h = h
IsAt-exact a symbols (some s) (e, at) = (s, e, at, refl)

-- On an index in ascending order of address, symbol_at answers with a symbol at the address, marked exact, and with nothing only where no
-- symbol of the index is at it.
pub symbol_at-IsExactAt :
    (index : Index) (a : ℕ) → IsOrdered index → IsExactAt a index.symbols (symbol_at index a)
unfolding symbol_at
symbol_at-IsExactAt index a o =
    let found = lower_bound symbol_address index.symbols a in
    IsAt-exact a index.symbols (at_address symbol_address a found) (
      IsCeiling-IsAt symbol_address a index.symbols found
        (lower_bound-IsCeiling symbol_address 0 a index.symbols o.symbols_ordered))

-- The answer is the highest symbol at or below the address, marked exact where it starts there. There
-- is none where every symbol is above.
abbrev pub IsNearest : ℕ → List ResolvedSymbol → Option ResolvedSymbol → Type 0
IsNearest a symbols none = All (λ s. a < s.address) symbols
IsNearest a symbols (some r) =
    (s : ResolvedSymbol) × IsFloor symbol_address a symbols (some s)
    × (r ≡ record s { exact = s.address == a })

nearest-IsNearest :
    (a : ℕ) (symbols : List ResolvedSymbol) (o : Option ResolvedSymbol)
    → IsFloor symbol_address a symbols o
    → IsNearest a symbols (nearest a o)
nearest-IsNearest a symbols none f = f
nearest-IsNearest a symbols (some s) f = elim (Bool-cases (s.size == 0 || ltb a (symbol_end s))) [
  | inl e ↦ rw e (s, f, refl)
  | inr e ↦ rw e (s, f, refl)
]

-- On an index in ascending order of address, nearest_symbol answers with the highest symbol at or
-- below the address, marked exact where it starts there, also where its size does not reach the
-- address. It answers with nothing only where every symbol is above the address.
pub nearest_symbol-IsNearest :
    (index : Index) (a : ℕ) → IsOrdered index → IsNearest a index.symbols (nearest_symbol index a)
unfolding nearest_symbol
nearest_symbol-IsNearest index a o =
    nearest-IsNearest a index.symbols (before_upper symbol_address none index.symbols a)
      (before_upper-IsFloor symbol_address 0 a index.symbols o.symbols_ordered)

-- A relocation belongs to an instruction if it is at its address or between it and its end.
abbrev pub Belongs : ℕ → ℕ → ResolvedReference → Type 0
Belongs a end r = (a ≤ r.address) × ((r.address ≡ a) ⊎ (r.address < end))

-- The answer is the lowest relocation that belongs to the instruction, or none does.
abbrev pub IsFirstIn : ℕ → ℕ → List ResolvedReference → Option ResolvedReference → Type 0
IsFirstIn a end relocations none = All (λ r. ¬ Belongs a end r) relocations
IsFirstIn a end relocations (some r) =
    Elem r relocations
    × Belongs a end r
    × All (λ q. (q.address < a) ⊎ (r.address ≤ q.address)) relocations

none_below :
    (a end : ℕ) (rs : List ResolvedReference)
    → All (λ r. r.address < a) rs
    → All (λ r. ¬ Belongs a end r) rs
none_below a end [] all = tt
none_below a end (r ∷ rs) all = (λ b. omega (arith, all.0, b.0), none_below a end rs all.1)

none_before :
    (a end lowest : ℕ) (rs : List ResolvedReference)
    → a < lowest
    → end ≤ lowest
    → All (λ q. (q.address < a) ⊎ (lowest ≤ q.address)) rs
    → All (λ r. ¬ Belongs a end r) rs
none_before a end lowest [] h over all = tt
none_before a end lowest (r ∷ rs) h over all =
    (λ b. omega (arith, all.0, b.0, b.1), none_before a end lowest rs h over all.1)

end_of_empty : (a size : ℕ) → (size == 0) ≡ true → instruction_end a size ≤ a
end_of_empty a size e = ground arith

inside_of : ℕ → ℕ → Option ResolvedReference → Option ResolvedReference
inside_of a size found = if size == 0 then none else below_end (instruction_end a size) found

first_in :
    (a size : ℕ) (rs : List ResolvedReference) (found : Option ResolvedReference)
    → IsCeiling reference_address a rs found
    → IsFirstIn a
        (instruction_end a size)
        rs
        (or_else (at_address reference_address a found) (inside_of a size found))
unfolding inside_of
first_in a size rs none c = elim (Bool-cases (size == 0)) [
  | inl e ↦ rw e (none_below a (instruction_end a size) rs c)
  | inr e ↦ rw e (none_below a (instruction_end a size) rs c)
]
first_in a size rs (some r) (e, le, all) = elim (Bool-cases (r.address == a)) [
  | inl t ↦ rw t (e, (le, inl (==→eq _ _ t)), all)
  | inr t ↦ elim (Bool-cases (size == 0)) [
    | inl z ↦
        rw (t, z)
          (none_before a (instruction_end a size) r.address rs (ground (arith, ==→ne _ _ t))
            (omega (arith, end_of_empty a size z)) all)
    | inr nz ↦ elim (Bool-cases (ltb r.address (instruction_end a size))) [
      | inl b ↦ rw (t, nz, b) (e, (le, inr (ltb→lt _ _ b)), all)
      | inr b ↦
          rw (t, nz, b)
            (none_before a (instruction_end a size) r.address rs (ground (arith, ==→ne _ _ t))
              (ltb→le _ _ b) all)
    ]
  ]
]

-- The answer at the code's own end of an instruction.
pub relocation_in_instruction-IsFirstIn_end :
    (index : Index) (a size : ℕ)
    → IsOrdered index
    → IsFirstIn a
        (instruction_end a size)
        index.relocations
        (relocation_in_instruction index a size)
unfolding relocation_in_instruction relocation_at relocation_inside inside_of
relocation_in_instruction-IsFirstIn_end index a size o =
    first_in a size index.relocations (lower_bound reference_address index.relocations a)
      (lower_bound-IsCeiling reference_address 0 a index.relocations o.relocations_ordered)

instruction_end-min : (a size : ℕ) → a < 2 ^ 64 → instruction_end a size ≡ min (a + size) u64_max
instruction_end-min a size h = ground arith

-- On an index in ascending order of address, and for an address of 64 bits, relocation_in_instruction
-- answers with the lowest relocation that is at the instruction's address or between it and its end,
-- and with nothing only where there is none. The end is the sum of address and size, and the highest
-- number of 64 bits where the sum passes it.
pub relocation_in_instruction-IsFirstIn :
    (index : Index) (a size : ℕ)
    → a < 2 ^ 64
    → IsOrdered index
    → IsFirstIn a
        (min (a + size) u64_max)
        index.relocations
        (relocation_in_instruction index a size)
relocation_in_instruction-IsFirstIn index a size h o =
    rw (← instruction_end-min a size h) (relocation_in_instruction-IsFirstIn_end index a size o)
