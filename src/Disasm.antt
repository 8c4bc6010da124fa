-- ===== src/Disasm.antt =====
-- include/roe/disasm.hpp: a decoded instruction.
use roe.Base.{ℕ, Option, List}
use roe.Base.Text.{Text}

pub data BranchKind : Type 0 where
  none unconditional_jump conditional_jump call return indirect_jump indirect_call : BranchKind

pub record Instruction : Type 0 where
  pub address : ℕ
  pub size : ℕ
  pub bytes : List ℕ
  pub mnemonic : Text
  pub operands : Text
  pub branch_kind : BranchKind
  pub branch_target : Option ℕ
  pub reference_target : Option ℕ
