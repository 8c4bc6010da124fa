-- ===== src/Debug/Types.antt =====
-- include/roe/debug.hpp: the source locations of a binary.
use roe.Base.{ℕ, Option, List}
use roe.Base.Text.{Text}
use roe.Disasm.{Instruction}

pub data Format : Type 0 where
  none dwarf pdb : Format

pub record SourceLocation : Type 0 where
  pub path : Text
  pub line : ℕ
  pub column : ℕ
  pub text : Text

-- An element of `locations`.
abbrev pub Entry : Type 0
Entry = ℕ × SourceLocation

pub record SourceMap : Type 0 where
  pub format : Format
  pub object_index : ℕ
  pub locations : List Entry
  pub fallback_message : Text

pub record SourceInstruction : Type 0 where
  pub instruction : Instruction
  pub source : Option SourceLocation
