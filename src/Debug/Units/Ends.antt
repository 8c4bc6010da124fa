-- ===== src/Debug/Units/Ends.antt =====
-- The line table is read inside the section, and where no length wraps around its units come to an end.
use roe.Base.{
  ℕ, zero, suc, ◌+◌, ◌^◌, ◌≤◌, ◌<◌, ◌≡◌, Bool, true, false, ◌&&◌, ◌||◌, not, Option, none, some,
  List, length, arith, ltb, leb, Bool-cases, inl, inr, if◌then◌else◌,
}
use roe.Base.Text.{Text}
use roe.Core.Result.{Gives, Result, ok, err, aborted}
use roe.Elf.Types.{Bytes, Endianness}
use roe.Elf.Reader.{add64}
use roe.Debug.Cursor.{Cursor, Read, continue, ◌>>=◌, ◌>>◌, tell, u8, u16}
use roe.Debug.Cursor.Moves.{Moved, highest, IsReadable, Moved-refl, u16-Moves}
use roe.Debug.Tables.{Tables, read_offset}
use roe.Debug.Tables.Safe.{choose-Stays, read_offset-Stays, read_old_tables-Stays}
use roe.Debug.Tables.Fields.{read_new_tables-Stays}
use roe.Debug.Program.{Header, Machine, run}
use roe.Debug.Program.Safe.{Wraps}
use roe.Debug.Program.Ends.{IsFinished, run-Gives, run-IsFinished}
use roe.Debug.Lookup.{ParsedUnit}
use roe.Debug.Units.{
  read_length, only_if, read_header, unit_of, run_unit, read_unit, parse_unit, append_unit,
  next_unit, load_units, front,
}
use roe.Debug.Units.Safe.{Safe, chain, byte, read_length-Safe, only_if-Safe, read_header-Safe}

-- There is a value, unless `K` holds.
abbrev pub Unless : {A : Type 0} → Type 0 → Option A → Type 0
Unless K none = K
Unless K (some a) = Unit {0}

module _ (bytes : Bytes) (size : length bytes < 2 ^ 63) (order : Endianness) (tables : Tables)
    (comp_dir_hint : Text) where
  -- A read from inside the section that returns a value and, unless `K` holds, a unit.
  abbrev Finishes : Type 0 → Read (Option ParsedUnit) → Type 0
  Finishes K m = (c : Cursor) → c.position ≤ length bytes → Gives (λ p. Unless K p.0) (m c)

  lead :
      {A : Type 0} (K : Type 0) (m : Read A) (f : A → Read (Option ParsedUnit))
      → Safe bytes size order tables comp_dir_hint m
      → ((a : A) → Finishes K (f a))
      → Finishes K (m >>= f)
  lead K m f h k c near = onward (m c) (h c near)
    where
      onward :
          (q : Result (_ × Cursor))
          → Gives (λ p. Moved (length bytes) c p.1) q
          → Gives (λ p. Unless K p.0) (continue f q)
      onward (ok (a, d)) n = k a d n.readable
      onward (err e) n = absurd n
      onward aborted n = absurd n

  -- What the loop of a program comes to, unless `K` holds, with this fuel.
  abbrev Runs : Type 0 → ℕ → Type 0
  Runs K fuel =
      (unit_end : ℕ) (h : Header) (m : Machine)
      → unit_end < 2 ^ 64
      → Gives (Unless K) (run bytes order h fuel unit_end m)

  unit_of-Unless :
      (K : Type 0) (unit_end : ℕ) (files : List Text) (q : Result (Option Machine))
      → Gives (Unless K) q
      → Gives (λ p. Unless K p.0) (unit_of bytes order tables comp_dir_hint unit_end files q)
  unit_of-Unless K unit_end files (ok none) g = g
  unit_of-Unless K unit_end files (ok (some m)) g = tt
  unit_of-Unless K unit_end files (err e) g = absurd g
  unit_of-Unless K unit_end files aborted g = absurd g

  choose_finish :
      (K : Type 0) (b : Bool) (m n : Read (Option ParsedUnit))
      → Finishes K m
      → Finishes K n
      → Finishes K (if b then m else n)
  choose_finish K true m n h k = h
  choose_finish K false m n h k = k

  module _ (K : Type 0) (fuel : ℕ) (runs : Runs K fuel) where
    run_unit-Finishes :
        (unit_end program_start : ℕ) (h : Header) (files : List Text)
        → unit_end < 2 ^ 64
        → Finishes K (run_unit bytes order tables comp_dir_hint fuel unit_end program_start h files)
    unfolding run_unit
    run_unit-Finishes unit_end program_start h files limit c near =
        unit_of-Unless K unit_end files _ (runs unit_end h _ limit)

    read_unit-Finishes :
        (unit_end : ℕ) (dwarf64 : Bool) (version : ℕ)
        → unit_end < 2 ^ 64
        → Finishes K (read_unit bytes order tables comp_dir_hint fuel unit_end dwarf64 version)
    unfolding read_unit
    read_unit-Finishes unit_end dwarf64 version limit =
        let first = only_if bytes order tables comp_dir_hint (leb 5 version) (u8 bytes) in
        let first_Safe : Safe bytes size order tables comp_dir_hint first =
          only_if-Safe bytes size order tables comp_dir_hint (leb 5 version) (u8 bytes)
            (byte bytes size order tables comp_dir_hint) in
        lead K (first >> first >> read_offset bytes order dwarf64) _
          (chain bytes size order tables comp_dir_hint (first >> first) _
            (chain bytes size order tables comp_dir_hint first _ first_Safe λ _. first_Safe)
            λ _. read_offset-Stays bytes size order dwarf64)
          λ header_length.
            lead K tell _ (λ c h. Moved-refl (length bytes) c h)
              λ position.
                lead K (read_header bytes order tables comp_dir_hint version) _
                  (read_header-Safe bytes size order tables comp_dir_hint version)
                  λ h.
                    lead K _ _
                      (choose-Stays bytes size order (leb version 4) _ _
                        (read_old_tables-Stays bytes size order comp_dir_hint)
                        (read_new_tables-Stays bytes size order tables dwarf64))
                      λ files.
                        run_unit-Finishes unit_end (add64 position header_length) h files limit

    parse_unit-Finishes : Finishes K (parse_unit bytes order tables comp_dir_hint fuel)
    unfolding parse_unit add64
    parse_unit-Finishes =
        lead K (read_length bytes order tables comp_dir_hint) _
          (read_length-Safe bytes size order tables comp_dir_hint)
          λ (unit_length, dwarf64).
            lead K tell _ (λ c h. Moved-refl (length bytes) c h)
              λ position.
                lead K (u16 bytes order) _
                  (u16-Moves (length bytes) bytes (omega arith) (omega arith) order)
                  λ version.
                    choose_finish K (ltb version 2 || ltb 5 version) _ _ (λ c near. tt)
                      (read_unit-Finishes (add64 position unit_length) dwarf64 version
                        (omega arith))

    append_unit-Unless :
        (unit : ParsedUnit) (q : Result (Option (List ParsedUnit)))
        → Gives (Unless K) q
        → Gives (Unless K) (append_unit bytes order tables comp_dir_hint unit q)
    append_unit-Unless unit (ok none) g = g
    append_unit-Unless unit (ok (some units)) g = tt
    append_unit-Unless unit (err e) g = absurd g
    append_unit-Unless unit aborted g = absurd g

    next_unit-Unless :
        (before : Cursor) (rest : Cursor → Result (Option (List ParsedUnit)))
        (q : Result (Option ParsedUnit × Cursor))
        → Gives (λ p. Unless K p.0) q
        → ((d : Cursor) → before.position < d.position → Gives (Unless K) (rest d))
        → Gives (Unless K) (next_unit bytes order tables comp_dir_hint before rest q)
    next_unit-Unless before rest (ok (none, d)) g k = g
    next_unit-Unless before rest (ok (some unit, d)) g k =
        elim (Bool-cases (leb d.position before.position)) [
          | inl e ↦ rw e tt
          | inr e ↦ rw e (append_unit-Unless unit (rest d) (k d (ground arith)))
        ]
    next_unit-Unless before rest (err e) g k = absurd g
    next_unit-Unless before rest aborted g k = absurd g

    load_units-Unless :
        (rounds : ℕ) (c : Cursor)
        → length bytes ≤ rounds + c.position
        → Gives (Unless K) (load_units bytes order tables comp_dir_hint fuel (suc rounds) c)
    unfolding load_units
    load_units-Unless zero c enough =
        let e : (ltb c.position (length bytes) && not c.error) ≡ false = ground arith in rw e tt
    load_units-Unless (suc rounds) c enough =
        elim (Bool-cases (ltb c.position (length bytes) && not c.error)) [
          | inl e ↦ rw e (
              next_unit-Unless c _ (parse_unit bytes order tables comp_dir_hint fuel c)
                (parse_unit-Finishes c (ground arith))
                λ d further. load_units-Unless rounds d (omega arith))
          | inr e ↦ rw e tt
        ]

  bounded_programs : (fuel : ℕ) → Runs (Unit {0}) fuel
  bounded_programs fuel unit_end h m limit =
      settle (run bytes order h fuel unit_end m)
        (run-Gives bytes (omega arith) order h fuel unit_end m limit)
    where
      settle : (q : Result (Option Machine)) → Gives (λ _. Unit {0}) q → Gives (Unless (Unit {0})) q
      settle (ok none) g = tt
      settle (ok (some n)) g = tt
      settle (err e) g = absurd g
      settle aborted g = absurd g

  ending_programs :
      ((h : Header) (c : Cursor) → IsReadable highest c → ¬ Wraps bytes (omega arith) order h c)
      → Runs ⊥ (suc (2 ^ 64))
  ending_programs near unit_end h m limit =
      settle (run bytes order h (suc (2 ^ 64)) unit_end m) (
        run-IsFinished bytes (omega arith) order h (near h) (2 ^ 64) unit_end m limit (omega arith))
    where
      settle : (q : Result (Option Machine)) → Gives (IsFinished unit_end) q → Gives (Unless ⊥) q
      settle (ok none) g = g
      settle (ok (some n)) g = tt
      settle (err e) g = absurd g
      settle aborted g = absurd g

  -- Whatever a line table of less than 2 ^ 63 bytes holds, the loop of load_source_map on its units,
  -- with the headers, the tables and the programs of the units, reads no byte outside the table, for
  -- every number of rounds that the programs are given.
  pub load_units-Gives :
      (fuel : ℕ)
      → Gives
          (λ _. Unit {0})
          (load_units bytes order tables comp_dir_hint fuel (suc (length bytes)) front)
  load_units-Gives fuel =
      settle (load_units bytes order tables comp_dir_hint fuel (suc (length bytes)) front) (
        load_units-Unless (Unit {0}) fuel (bounded_programs fuel) (length bytes) front
          (omega arith))
    where
      settle :
          (q : Result (Option (List ParsedUnit)))
          → Gives (Unless (Unit {0})) q
          → Gives (λ _. Unit {0}) q
      settle (ok units) g = tt
      settle (err e) g = absurd g
      settle aborted g = absurd g

  -- Where no LEB128 number of a line table of less than 2 ^ 63 bytes, added to the position behind it,
  -- reaches 2 ^ 64, the loop of load_source_map on its units comes to a list of units, with a round for
  -- each byte of the table and 2 ^ 64 + 1 rounds for each program.
  pub load_units-total :
      ((h : Header) (c : Cursor) → IsReadable highest c → ¬ Wraps bytes (omega arith) order h c)
      → Gives
          (Unless ⊥)
          (load_units bytes order tables comp_dir_hint (suc (2 ^ 64)) (suc (length bytes)) front)
  load_units-total near =
      load_units-Unless ⊥ (suc (2 ^ 64)) (ending_programs near) (length bytes) front (omega arith)
