-- ===== src/Debug/Units/Safe.antt =====
-- The header of a unit is read inside the section.
use roe.Base.{
  ℕ, zero, suc, ◌-◌, ◌^◌, ◌<◌, Bool, true, false, List, [], ◌∷◌, length, arith, leb, ◌==◌,
}
use roe.Base.Text.{Text}
use roe.Elf.Types.{Bytes, Endianness}
use roe.Debug.Cursor.{Read, pure, ◌>>=◌, ◌>>◌, u8, u32, u64}
use roe.Debug.Cursor.Moves.{Moved-refl, u32-Moves, u64-Moves}
use roe.Debug.Tables.{Tables}
use roe.Debug.Tables.Safe.{Stays, byte-Stays, then-Stays, pure-Stays, map-Stays, choose-Stays}
use roe.Debug.Units.{Length, read_length, read_bytes, only_if, read_header}

module _ (bytes : Bytes) (size : length bytes < 2 ^ 63) (order : Endianness) (tables : Tables)
    (comp_dir_hint : Text) where
  abbrev pub Safe : {A : Type 0} → Read A → Type 0
  Safe m = Stays bytes size order m

  pub chain :
      {A B : Type 0} (m : Read A) (f : A → Read B)
      → Safe m
      → ((a : A) → Safe (f a))
      → Safe (m >>= f)
  chain m f h k = then-Stays bytes size order m f h k

  done : {A : Type 0} (a : A) → Safe (pure a)
  done a = pure-Stays bytes size order a

  pub byte : Safe (u8 bytes)
  byte = byte-Stays bytes size order

  pub read_length-Safe : Safe (read_length bytes order tables comp_dir_hint)
  unfolding read_length
  read_length-Safe =
      chain (u32 bytes order) _ (u32-Moves (length bytes) bytes (omega arith) (omega arith) order)
        λ n.
          choose-Stays bytes size order (n == 0xffff_ffff) _ _
            (map-Stays bytes size order (u64 bytes order) _
              (u64-Moves (length bytes) bytes (omega arith) (omega arith) order))
            (done {A = Length} (n, false))

  read_bytes-Safe : (n : ℕ) → Safe (read_bytes bytes order tables comp_dir_hint n)
  unfolding read_bytes
  read_bytes-Safe zero = done {A = List ℕ} []
  read_bytes-Safe (suc n) = chain (u8 bytes) _ byte λ b.
      chain (read_bytes bytes order tables comp_dir_hint n) _ (read_bytes-Safe n)
        λ rest. done (b ∷ rest)

  pub only_if-Safe :
      (test : Bool) (m : Read ℕ) → Safe m → Safe (only_if bytes order tables comp_dir_hint test m)
  only_if-Safe true m h = map-Stays bytes size order m _ h
  only_if-Safe false m h = done tt

  pub read_header-Safe : (version : ℕ) → Safe (read_header bytes order tables comp_dir_hint version)
  unfolding read_header
  read_header-Safe version = chain (u8 bytes) _ byte λ minimum.
      chain (only_if bytes order tables comp_dir_hint (leb 4 version) (u8 bytes) >> u8 bytes) _
        (chain (only_if bytes order tables comp_dir_hint (leb 4 version) (u8 bytes)) _
          (only_if-Safe (leb 4 version) (u8 bytes) byte) λ _. byte)
        λ default_is_stmt. chain (u8 bytes) _ byte λ line_base.
          chain (u8 bytes) _ byte λ line_range. chain (u8 bytes) _ byte λ opcode_base.
            chain (read_bytes bytes order tables comp_dir_hint (opcode_base - 1)) _
              (read_bytes-Safe (opcode_base - 1)) λ lengths c h. Moved-refl (length bytes) c h
