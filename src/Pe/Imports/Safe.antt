-- ===== src/Pe/Imports/Safe.antt =====
-- Imports are read without a fault, and no more than the limit are added.
use roe.Base.{
  ℕ, zero, suc, ◌+◌, ◌*◌, ◌^◌, ◌≤◌, ◌<◌, ◌≡◌, refl, sym, Bool, true, false, ◌&&◌, ◌||◌, not, Option,
  none, some, List, [], All, arith, leb, leb→lt, ◌==◌, Bool-cases, inl, inr, if◌then◌else◌,
}
use mathlib.Core.List.{append-nil}
use roe.Base.Text.{Text}
use roe.Core.Result.{ok, Returns, Returns-bind}
use roe.Binary.Types.{Symbol}
use roe.Elf.Types.{Bytes, IsImage}
use roe.Pe.Reader.{u32, SectionMap}
use roe.Pe.Reader.Laws.{u32-Returns, u64-Returns, IsWord, IsNear, rva_to_offset-IsNear}
use roe.Pe.Exports.{max_parsed_symbols}
use roe.Pe.Imports.{
  Imports, thunk_name, read_thunk, thunk_loop, thunks_at, thunk_place, visit_descriptor,
  descriptor_loop, imports_at, parse_imports,
}
use roe.Pe.Imports.Bounded.{
  IsBounded, stopped-IsBounded, skipped-IsBounded, flagged-IsBounded, library-IsBounded,
  pushed-IsBounded,
}

module _ (bytes : Bytes) (image : IsImage bytes) (sections : List SectionMap)
    (words : All IsWord sections) (index : ℕ) (pe32_plus : Bool) (symbols : List Symbol) where
  read_thunk-Returns :
      (wide flag : Bool) (thunk_off t : ℕ)
      → thunk_off < 2 ^ 33
      → t < 65536
      → Returns (λ _. Unit {0}) (read_thunk bytes wide flag thunk_off t)
  unfolding read_thunk
  read_thunk-Returns true flag thunk_off t near few =
      u64-Returns bytes image flag (thunk_off + t * 8) (omega arith)
  read_thunk-Returns false flag thunk_off t near few =
      u32-Returns bytes image flag (thunk_off + t * 4) (omega arith)

  thunk_loop-Returns :
      (dll : Text) (thunk_off rounds t : ℕ) (s : Imports)
      → thunk_off < 2 ^ 33
      → t + rounds ≤ 65536
      → s.stopped ≡ false
      → IsBounded symbols s
      → Returns
          (IsBounded symbols)
          (thunk_loop bytes sections index pe32_plus dll thunk_off rounds t s)
  unfolding thunk_loop
  thunk_loop-Returns dll thunk_off zero t s near few running b = b
  thunk_loop-Returns dll thunk_off (suc rounds) t s near few running b =
      elim (Bool-cases (leb max_parsed_symbols s.budget)) [
        | inl full ↦ rw full (stopped-IsBounded symbols s b)
        | inr free ↦
            let below = leb→lt _ _ free in
            rw free (
              Returns-bind (λ _. Unit {0}) (IsBounded symbols)
                (read_thunk bytes pe32_plus s.flag thunk_off t) _
                (read_thunk-Returns pe32_plus s.flag thunk_off t near (omega arith))
                λ (thunk, flag) _. elim (Bool-cases (not flag || thunk == 0)) [
                  | inl e ↦ rw e (skipped-IsBounded symbols s b flag running below)
                  | inr e ↦ rw e (
                      thunk_loop-Returns dll thunk_off rounds (t + 1) _ near (omega arith) running (
                        pushed-IsBounded symbols s b index dll
                          (thunk_name bytes sections pe32_plus thunk) flag running below))
                ])
      ]

  thunks_at-Returns :
      (dll : Text) (o : Option ℕ) (s : Imports)
      → IsNear o
      → s.stopped ≡ false
      → IsBounded symbols s
      → Returns (IsBounded symbols) (thunks_at bytes sections index pe32_plus dll o s)
  thunks_at-Returns dll none s near running b = b
  thunks_at-Returns dll (some thunk_off) s near running b =
      thunk_loop-Returns dll thunk_off 65536 0 s near (omega arith) running b

  thunk_place-IsNear : (thunk_rva : ℕ) → IsNear (thunk_place sections thunk_rva)
  thunk_place-IsNear thunk_rva = elim (Bool-cases (thunk_rva == 0)) [
    | inl e ↦ rw e tt
    | inr e ↦ rw e (rva_to_offset-IsNear sections thunk_rva words)
  ]

  visit_descriptor-Returns :
      (ilt_rva name_rva iat_rva : ℕ) (s : Imports)
      → s.stopped ≡ false
      → IsBounded symbols s
      → Returns
          (IsBounded symbols)
          (visit_descriptor bytes sections index pe32_plus ilt_rva name_rva iat_rva s)
  unfolding visit_descriptor
  visit_descriptor-Returns ilt_rva name_rva iat_rva s running b =
      thunks_at-Returns _ _ _ (thunk_place-IsNear _) running (library-IsBounded symbols s b _)

  descriptor_loop-Returns :
      (dir_off rounds entry : ℕ) (s : Imports)
      → dir_off < 2 ^ 33
      → entry + rounds ≤ 4096
      → s.stopped ≡ false
      → IsBounded symbols s
      → Returns
          (IsBounded symbols)
          (descriptor_loop bytes sections index pe32_plus dir_off rounds entry s)
  unfolding descriptor_loop
  descriptor_loop-Returns dir_off zero entry s near few running b = b
  descriptor_loop-Returns dir_off (suc rounds) entry s near few running b =
      Returns-bind (λ _. Unit {0}) (IsBounded symbols) (u32 bytes s.flag (dir_off + entry * 20)) _
        (u32-Returns bytes image s.flag (dir_off + entry * 20) (omega arith))
        λ (ilt_rva, flag1) _.
          Returns-bind (λ _. Unit {0}) (IsBounded symbols)
            (u32 bytes flag1 (dir_off + entry * 20 + 12)) _
            (u32-Returns bytes image flag1 (dir_off + entry * 20 + 12) (omega arith))
            λ (name_rva, flag2) _.
              Returns-bind (λ _. Unit {0}) (IsBounded symbols)
                (u32 bytes flag2 (dir_off + entry * 20 + 16)) _
                (u32-Returns bytes image flag2 (dir_off + entry * 20 + 16) (omega arith))
                λ (iat_rva, flag3) _.
                  elim (Bool-cases (not flag3 || (ilt_rva == 0 && name_rva == 0 && iat_rva == 0))) [
                    | inl e ↦ rw e (flagged-IsBounded symbols s b flag3)
                    | inr e ↦ rw e (
                        Returns-bind (IsBounded symbols) (IsBounded symbols)
                          (visit_descriptor bytes sections index pe32_plus ilt_rva name_rva iat_rva
                            (record s { flag = flag3 }))
                          _
                          (visit_descriptor-Returns ilt_rva name_rva iat_rva
                            (record s { flag = flag3 }) running
                            (flagged-IsBounded symbols s b flag3))
                          λ s' b'. after s' b' (
                            descriptor_loop-Returns dir_off rounds (entry + 1) s' near
                              (omega arith)))
                  ]
    where
      after :
          (s' : Imports)
          → IsBounded symbols s'
          → (s'.stopped ≡ false
              → IsBounded symbols s'
              → Returns
                  (IsBounded symbols)
                  (descriptor_loop bytes sections index pe32_plus dir_off rounds (entry + 1) s'))
          → Returns (IsBounded symbols) (
              if s'.stopped
              then ok s'
              else descriptor_loop bytes sections index pe32_plus dir_off rounds (entry + 1) s')
      after s' b' next = elim (Bool-cases s'.stopped) [
        | inl e ↦ simp e b'
        | inr e ↦ simp e (next e b')
      ]

  unchanged-IsBounded :
      (flag : Bool) (libraries : List Text)
      → IsBounded symbols (record {
        flag = flag;
        budget = 0;
        libraries = libraries;
        symbols = symbols;
        stopped = false;
      })
  unchanged-IsBounded flag libraries = record {
    added = [];
    split = sym (append-nil symbols);
    count = omega arith;
    imports = tt;
    room = λ _. (omega arith, omega arith);
  }

  imports_at-Returns :
      (o : Option ℕ) (s : Imports)
      → IsNear o
      → s.stopped ≡ false
      → IsBounded symbols s
      → Returns (IsBounded symbols) (imports_at bytes sections index pe32_plus o s)
  imports_at-Returns none s near running b = b
  imports_at-Returns (some dir_off) s near running b =
      descriptor_loop-Returns dir_off 4096 0 s near (omega arith) running b

  -- On an image, and for sections whose places in the file are words of 32 bits, parse_imports does not
  -- read outside the image, whatever the import directory says. It appends at most 65536 symbols to
  -- those of the object, over all libraries together, each of them imported and with a name.
  pub parse_imports-Returns :
      (import_rva : ℕ) (flag : Bool) (libraries : List Text)
      → Returns
          (IsBounded symbols)
          (parse_imports bytes sections import_rva pe32_plus index flag libraries symbols)
  unfolding parse_imports
  parse_imports-Returns import_rva flag libraries =
      imports_at-Returns _ _ (thunk_place-IsNear import_rva) refl
        (unchanged-IsBounded flag libraries)
