-- ===== src/Resolver/Types.antt =====
-- include/roe/resolver.hpp: what the resolver keeps of a file.
use roe.Base.{ℕ, Bool, List}
use roe.Base.Text.{Text}
use roe.Binary.Types.{Format, StringLiteral}

pub record Options : Type 0 where
  pub demangle_names : Bool
  pub include_dynamic_symbols : Bool
  pub include_local_symbols : Bool

pub record ResolvedSymbol : Type 0 where
  pub name : Text
  pub raw_name : Text
  pub address : ℕ
  pub size : ℕ
  pub exact : Bool
  pub dynamic : Bool
  pub object_index : ℕ
  pub synthetic : Bool

pub record ResolvedReference : Type 0 where
  pub address : ℕ
  pub name : Text
  pub raw_name : Text
  pub relocation_section : Text
  pub relocation_type : ℕ
  pub addend : ℕ
  pub has_addend : Bool
  pub object_index : ℕ

pub record Index : Type 0 where
  pub symbols : List ResolvedSymbol
  pub relocations : List ResolvedReference
  pub format : Format
  pub strings : List StringLiteral
