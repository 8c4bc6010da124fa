-- ===== src/Debug/Tables/Safe.antt =====
-- The tables of a unit are read inside the section, and the loops on old tables end.
use roe.Base.{
  ℕ, zero, suc, ◌+◌, ◌^◌, ◌≤◌, ◌<◌, Bool, List, [], ◌∷◌, length, arith, Bool-cases, inl, inr,
  if◌then◌else◌,
}
use roe.Base.Text.{Text, is_empty}
use roe.Core.Result.{Gives, Result, ok, err, aborted}
use roe.Elf.Types.{Bytes, Endianness}
use roe.Debug.Cursor.{Cursor, Read, pure, continue, ◌>>=◌, ◌>>◌, u8, uleb, cstring, skip}
use roe.Debug.Cursor.Moves.{
  Moved, Moves, Moved-trans, pure-Moves, bind-Moves, if-Moves, u8-Moves, u32-Moves, u64-Moves,
  uleb-Moves,
}
use roe.Debug.Cursor.Texts.{Passed, skip-Moves, cstring-Passed}
use roe.Debug.Tables.{join_path, directory_loop, file_loop, read_old_tables, read_offset}

module _ (bytes : Bytes) (size : length bytes < 2 ^ 63) (order : Endianness) where
  -- A read that keeps the cursor inside the section and does not move it back.
  abbrev pub Stays : {A : Type 0} → Read A → Type 0
  Stays m = Moves (length bytes) m

  pub leb128-Stays : Stays (uleb bytes)
  leb128-Stays = uleb-Moves (length bytes) bytes (omega arith) (omega arith)

  pub byte-Stays : Stays (u8 bytes)
  byte-Stays = u8-Moves (length bytes) bytes (omega arith) (omega arith)

  pub then-Stays :
      {A B : Type 0} (m : Read A) (f : A → Read B)
      → Stays m
      → ((a : A) → Stays (f a))
      → Stays (m >>= f)
  then-Stays m f h k = bind-Moves (length bytes) m f h k

  pub pure-Stays : {A : Type 0} (a : A) → Stays (pure a)
  pure-Stays a = pure-Moves (length bytes) a

  -- A read whose value only goes into the result.
  pub map-Stays : {A B : Type 0} (m : Read A) (f : A → B) → Stays m → Stays (m >>= λ a. pure (f a))
  map-Stays m f h = then-Stays m (λ a. pure (f a)) h λ a. pure-Stays (f a)

  pub choose-Stays :
      {A : Type 0} (b : Bool) (m n : Read A) → Stays m → Stays n → Stays (if b then m else n)
  choose-Stays b m n h k = if-Moves (length bytes) b m n h k

  skip-Stays : {A : Type 0} (count : ℕ) (a : A) → count ≤ 16 → Stays (skip bytes count >> pure a)
  skip-Stays count a small =
      then-Stays (skip bytes count) _ (skip-Moves bytes size count small) λ _. pure-Stays a

  pub read_offset-Stays : (dwarf64 : Bool) → Stays (read_offset bytes order dwarf64)
  unfolding read_offset
  read_offset-Stays dwarf64 =
      choose-Stays dwarf64 _ _ (u64-Moves (length bytes) bytes (omega arith) (omega arith) order)
        (u32-Moves (length bytes) bytes (omega arith) (omega arith) order)

  -- A run behind one that has moved the cursor.
  behind :
      {A : Type 0} (c d : Cursor) (q : Result (A × Cursor))
      → Moved (length bytes) c d
      → Gives (λ p. Moved (length bytes) d p.1) q
      → Gives (λ p. Moved (length bytes) c p.1) q
  behind c d (ok (a, x)) m n = Moved-trans (length bytes) c d x m n
  behind c d (err e) m n = absurd n
  behind c d aborted m n = absurd n

  -- A read and what follows it, from one cursor.
  pub follow :
      {A B : Type 0} (c : Cursor) (q : Result (A × Cursor)) (f : A → Read B)
      → Gives (λ p. Moved (length bytes) c p.1) q
      → ((a : A) (d : Cursor)
          → Moved (length bytes) c d
          → Gives (λ p. Moved (length bytes) d p.1) (f a d))
      → Gives (λ p. Moved (length bytes) c p.1) (continue f q)
  follow c (ok (a, d)) f m k = behind c d (f a d) m (k a d m)
  follow c (err e) f m k = absurd m
  follow c aborted f m k = absurd m

  -- A step of a loop that goes round again behind a text which is not empty.
  loop-Gives :
      {A : Type 0} (c : Cursor) (done : A) (f : Text → Read A) (q : Result (Text × Cursor))
      → Gives (λ p. Moved (length bytes) c p.1 × Passed bytes size c p) q
      → ((t : Text) (d : Cursor)
          → c.position < d.position
          → d.position ≤ length bytes
          → Gives (λ p. Moved (length bytes) d p.1) (f t d))
      → Gives
          (λ p. Moved (length bytes) c p.1)
          (continue (λ t. if is_empty t then pure done else f t) q)
  loop-Gives c done f (ok (t, d)) (m, passed) k = elim (Bool-cases (is_empty t)) [
    | inl e ↦ rw e m
    | inr e ↦ rw e (behind c d (f t d) m (k t d (passed e) m.readable))
  ]
  loop-Gives c done f (err e) g k = absurd g
  loop-Gives c done f aborted g k = absurd g

  directory_loop-Gives :
      (rounds : ℕ) (c : Cursor)
      → c.position ≤ length bytes
      → length bytes ≤ rounds + c.position
      → Gives (λ p. Moved (length bytes) c p.1) (directory_loop bytes order (suc rounds) c)
  unfolding directory_loop
  directory_loop-Gives zero c h enough =
      loop-Gives c [] _ (cstring bytes c) (cstring-Passed bytes size c h)
        λ dir d further within. absurd (omega arith)
  directory_loop-Gives (suc rounds) c h enough =
      loop-Gives c [] _ (cstring bytes c) (cstring-Passed bytes size c h) λ dir d further within.
        follow d (directory_loop bytes order (suc rounds) d)
          (λ directories. pure (dir ∷ directories))
          (directory_loop-Gives rounds d within (omega arith))
          λ directories e m. pure-Stays (dir ∷ directories) e m.readable

  file_loop-Gives :
      (directories : List Text) (rounds : ℕ) (c : Cursor)
      → c.position ≤ length bytes
      → length bytes ≤ rounds + c.position
      → Gives (λ p. Moved (length bytes) c p.1) (file_loop bytes order directories (suc rounds) c)
  unfolding file_loop
  file_loop-Gives directories zero c h enough =
      loop-Gives c [] _ (cstring bytes c) (cstring-Passed bytes size c h)
        λ name d further within. absurd (omega arith)
  file_loop-Gives directories (suc rounds) c h enough =
      loop-Gives c [] _ (cstring bytes c) (cstring-Passed bytes size c h) λ name d further within.
        follow d (uleb bytes d) _ (leb128-Stays d within) λ dir_index d1 m1.
          follow d1 (uleb bytes d1) _ (leb128-Stays d1 m1.readable) λ mtime d2 m2.
            follow d2 (uleb bytes d2) _ (leb128-Stays d2 m2.readable) λ span d3 m3.
              follow d3 (file_loop bytes order directories (suc rounds) d3) _
                (file_loop-Gives directories rounds d3 m3.readable
                  (omega (arith, m1.forward, m2.forward, m3.forward)))
                λ files d4 m4.
                  pure-Stays (join_path directories name dir_index ∷ files) d4 m4.readable

  pub read_old_tables-Stays :
      (comp_dir_hint : Text) → Stays (read_old_tables bytes order comp_dir_hint)
  unfolding read_old_tables
  read_old_tables-Stays comp_dir_hint c h =
      follow c (directory_loop bytes order (suc (length bytes)) c) _
        (directory_loop-Gives (length bytes) c h (omega arith))
        λ directories d m.
          follow d (file_loop bytes order (comp_dir_hint ∷ directories) (suc (length bytes)) d) _
            (file_loop-Gives (comp_dir_hint ∷ directories) (length bytes) d m.readable
              (omega arith))
            λ files e n. pure-Stays ([] ∷ files) e n.readable
