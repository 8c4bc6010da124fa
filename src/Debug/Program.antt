-- ===== src/Debug/Program.antt =====
-- src/debug/debug.cpp, parse_unit: the line-number program, one opcode at a time.
pub mod Safe
pub mod Ends
pub mod Loops
use roe.Base.{
  ℕ, zero, suc, ◌+◌, ◌-◌, ◌/◌, ◌%◌, ◌^◌, Bool, true, false, ◌&&◌, ◌||◌, not, Option, none, some,
  List, [], ◌∷◌, ◌++◌, length, get_or, ltb, leb, ◌==◌, if◌then◌else◌,
}
use roe.Core.Result.{Result, ok, err, aborted}
use roe.Elf.Types.{Bytes, Endianness}
use roe.Elf.Reader.{add64, mul64}
use roe.Debug.Cursor.{Cursor, Read, pure, ◌>>=◌, ◌>>◌, tell, seek, u8, u16, u32, u64, uleb, sleb}

-- What the program takes from the header of its unit. `line_base` is the signed byte as 64 bits.
pub record Header : Type 0 where
  pub version : ℕ
  pub minimum_instruction_length : ℕ
  pub line_base : ℕ
  pub line_range : ℕ
  pub opcode_base : ℕ
  pub standard_opcode_lengths : List ℕ

pub record Row : Type 0 where
  pub address : ℕ
  pub file : ℕ
  pub line : ℕ
  pub column : ℕ

-- The variables of the program. `line` is the signed number as 64 bits; a sum that the signed type does
-- not hold is undefined in the source, and wraps around here.
pub record Registers : Type 0 where
  pub address : ℕ
  pub file : ℕ
  pub line : ℕ
  pub column : ℕ

unfoldable pub emit : Registers → Row
emit r = record {
  address = r.address;
  file = r.file;
  line = if r.line == 0 || leb (2 ^ 63) r.line then 0 else r.line % 2 ^ 32;
  column = r.column % 2 ^ 32;
}

unfoldable pub reset : Header → Registers
reset h = record { address = 0; file = if leb 5 h.version then 0 else 1; line = 1; column = 0 }

-- What an opcode does: the registers behind it, and the rows that it emits.
abbrev pub Effect : Type 0
Effect = Registers × List Row

pub record Machine : Type 0 where
  pub registers : Registers
  pub cursor : Cursor
  pub rows : List Row

abbrev pub next_machine : Machine → Result (Effect × Cursor) → Result Machine
next_machine m (ok ((r, emitted), c)) =
    ok (record { registers = r; cursor = c; rows = m.rows ++ emitted })
next_machine m (err e) = err e
next_machine m aborted = aborted

abbrev pub and_then : Result Machine → (Machine → Result (Option Machine)) → Result (Option Machine)
and_then (ok n) f = f n
and_then (err e) f = err e
and_then aborted f = aborted

abbrev pub running : ℕ → Machine → Bool
running unit_end m = ltb m.cursor.position unit_end && not m.cursor.error

module _ (bytes : Bytes) (order : Endianness) (h : Header) where
  -- The body of an extended opcode whose length is `n`.
  unfoldable pub extended_body : ℕ → ℕ → Registers → Read Effect
  extended_body n sub r =
      if sub == 1
      then pure (reset h, emit r ∷ [])
      else if sub == 2
      then ((if leb 9 n then u64 bytes order else u32 bytes order) >>= λ a.
          pure (record r { address = a }, []))
      else if sub == 4
      then (uleb bytes >>= λ _. pure (r, []))
      else pure (r, [])

  unfoldable pub extended_opcode : Registers → Read Effect
  extended_opcode r = uleb bytes >>= λ n. tell >>= λ position.
      u8 bytes >>= λ sub. extended_body n sub r >>= λ e. seek (add64 position n) >> pure e

  -- The arguments of an opcode that the program does not know.
  unfoldable pub skip_arguments : ℕ → Read (Unit {0})
  skip_arguments zero = pure tt
  skip_arguments (suc n) = uleb bytes >>= λ _. skip_arguments n

  abbrev pub scaled : ℕ → ℕ
  scaled n = mul64 n h.minimum_instruction_length

  abbrev pub const_add : Registers → Registers
  const_add r =
      if h.line_range == 0
      then r
      else record r { address = add64 r.address (scaled ((255 - h.opcode_base) / h.line_range)) }

  unfoldable pub standard_opcode : ℕ → Registers → Read Effect
  standard_opcode opcode r =
      if opcode == 1
      then pure (r, emit r ∷ [])
      else if opcode == 2
      then (uleb bytes >>= λ n. pure (record r { address = add64 r.address (scaled n) }, []))
      else if opcode == 3
      then (sleb bytes >>= λ n. pure (record r { line = add64 r.line n }, []))
      else if opcode == 4
      then (uleb bytes >>= λ n. pure (record r { file = n }, []))
      else if opcode == 5
      then (uleb bytes >>= λ n. pure (record r { column = n }, []))
      else if (opcode == 6 || opcode == 7) || (opcode == 10 || opcode == 11)
      then pure (r, [])
      else if opcode == 8
      then pure (const_add r, [])
      else if opcode == 9
      then (u16 bytes order >>= λ n. pure (record r { address = add64 r.address n }, []))
      else if opcode == 12
      then (uleb bytes >>= λ _. pure (r, []))
      else (skip_arguments (get_or h.standard_opcode_lengths (opcode - 1) 0) >>= λ _. pure (r, []))

  -- The registers behind a special opcode, less the row that it emits.
  unfoldable pub special : ℕ → Registers → Registers
  special adjusted r = if h.line_range == 0 then r else record r {
    address = add64 r.address (scaled (adjusted / h.line_range));
    line = add64 r.line (add64 h.line_base (adjusted % h.line_range));
  }

  unfoldable pub special_opcode : ℕ → Registers → Read Effect
  special_opcode opcode r = let s = special (opcode - h.opcode_base) r in pure (s, emit s ∷ [])

  unfoldable pub dispatch : ℕ → Registers → Read Effect
  dispatch opcode r =
      if opcode == 0
      then extended_opcode r
      else if ltb opcode h.opcode_base
      then standard_opcode opcode r
      else special_opcode opcode r

  -- One round of the loop.
  unfoldable pub round : Registers → Read Effect
  round r = u8 bytes >>= λ opcode. dispatch opcode r

  unfoldable pub step : Machine → Result Machine
  step m = next_machine m (round m.registers m.cursor)

  -- The loop, with the rounds that are left. It comes to nothing where there are too few of them.
  unfoldable pub run : ℕ → ℕ → Machine → Result (Option Machine)
  run zero unit_end m = ok none
  run (suc fuel) unit_end m =
      if running unit_end m then and_then (step m) (λ n. run fuel unit_end n) else ok (some m)
