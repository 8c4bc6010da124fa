-- ===== src/Elf/Adapter/Strings/Steps.antt =====
-- The loop over the bytes of a section: what its variables hold, byte by byte.
use roe.Base.{
  ℕ, ◌+◌, ◌≤◌, ◌<◌, ◌≡◌, refl, sym, ap, ◌∙◌, ◌⊎◌, inl, inr, Bool, true, false, [], ◌∷◌, ◌++◌,
  length, length-append, All, All-append, arith, leb, leb→le, leb→lt, ◌==◌, ==→eq, Bool-cases,
  if◌then◌else◌,
}
use mathlib.Core.List.{append_assoc}
use roe.Base.Text.{is_empty}
use roe.Binary.Types.{StringLiteral}
use roe.Elf.Types.{Bytes}
use roe.Elf.Reader.{add64}
use roe.Elf.Adapter.Strings.{
  printable_string_byte, max_strings, Scan, end_string, scan_byte, scan_bytes,
}

-- A string of the bytes of a section that starts at an address: printable bytes, two at least, that a
-- zero byte follows.
pub record IsStringOf (index address : ℕ) (bytes : Bytes) (l : StringLiteral) : Type 0 where
  pub before : Bytes
  pub after : Bytes
  pub place : bytes ≡ before ++ (l.value ++ (0 ∷ after))
  pub at_address : l.address ≡ add64 address (length before)
  pub index_kept : l.object_index ≡ index
  pub size_is : l.size ≡ length l.value
  pub long : 2 ≤ length l.value
  pub printable : All (λ b. printable_string_byte b ≡ true) l.value

-- The state of the loop before the bytes `rest`, at `offset`.
pub record Holds (bytes : Bytes) (offset : ℕ) (rest : Bytes) (scan : Scan) : Type 0 where
  pub before : Bytes
  pub split : bytes ≡ before ++ (scan.current ++ rest)
  pub ends : length before + length scan.current ≡ offset
  pub starts : (scan.current ≡ []) ⊎ (scan.start ≡ length before)
  pub printable : All (λ b. printable_string_byte b ≡ true) scan.current

step_split :
    (bytes before current : Bytes) (byte : ℕ) (rest : Bytes)
    → bytes ≡ before ++ (current ++ (byte ∷ rest))
    → bytes ≡ before ++ ((current ++ (byte ∷ [])) ++ rest)
step_split bytes before current byte rest e =
    e ∙ ap (λ (l : Bytes). before ++ l) (sym (append_assoc current (byte ∷ []) rest))

clear_split :
    (bytes before current : Bytes) (byte : ℕ) (rest : Bytes)
    → bytes ≡ before ++ (current ++ (byte ∷ rest))
    → bytes ≡ (before ++ (current ++ (byte ∷ []))) ++ ([] ++ rest)
clear_split bytes before current byte rest e =
    step_split bytes before current byte rest e
    ∙ sym (append_assoc before (current ++ (byte ∷ [])) rest)

-- What a cleared state holds behind a byte.
cleared :
    (bytes : Bytes) (offset byte : ℕ) (rest : Bytes) (scan next : Scan)
    → next.current ≡ []
    → Holds bytes offset (byte ∷ rest) scan
    → Holds bytes (offset + 1) rest next
cleared bytes offset byte rest scan next empty h = record {
  before = h.before ++ (scan.current ++ (byte ∷ []));
  split = rw empty (clear_split bytes h.before scan.current byte rest h.split);
  ends = rw empty (
      omega (
        arith,
        length-append h.before (scan.current ++ (byte ∷ [])),
        length-append scan.current (byte ∷ []),
        h.ends,
      ));
  starts = inl empty;
  printable = rw empty tt;
}

module _ (index address : ℕ) (bytes : Bytes) where
  -- The string that a zero byte ends.
  ended-IsStringOf :
      (offset byte : ℕ) (rest : Bytes) (scan : Scan)
      → (byte == 0) ≡ true
      → leb 2 (length scan.current) ≡ true
      → Holds bytes offset (byte ∷ rest) scan
      → IsStringOf index address bytes (record {
        object_index = index;
        address = add64 address scan.start;
        size = length scan.current;
        value = scan.current;
      })
  ended-IsStringOf offset byte rest scan zero_byte long h = record {
    before = h.before;
    after = rest;
    place = rw (==→eq _ _ zero_byte) at h.split;
    at_address = elim h.starts [
      | inl empty ↦ absurd (short empty)
      | inr e ↦ ap (λ n. add64 address n) e
    ];
    index_kept = refl;
    size_is = refl;
    long = leb→le _ _ long;
    printable = h.printable;
  }
    where
      short : scan.current ≡ [] → ⊥
      short e = let l : length scan.current ≡ 0 = ap (λ (t : Bytes). length t) e in ground arith

  printed :
      (offset byte : ℕ) (rest : Bytes) (scan : Scan)
      → printable_string_byte byte ≡ true
      → Holds bytes offset (byte ∷ rest) scan
      → Holds bytes (offset + 1) rest (record {
        start = if is_empty scan.current then offset else scan.start;
        current = scan.current ++ (byte ∷ []);
        strings = scan.strings;
        full = scan.full;
      })
  printed offset byte rest scan p h = record {
    before = h.before;
    split = step_split bytes h.before scan.current byte rest h.split;
    ends = omega (arith, length-append scan.current (byte ∷ []), h.ends);
    starts = inr (begins scan.current scan.start h.starts h.ends);
    printable = All-append _ scan.current (byte ∷ []) h.printable (p, tt);
  }
    where
      begins :
          (current : Bytes) (start : ℕ)
          → (current ≡ []) ⊎ (start ≡ length h.before)
          → length h.before + length current ≡ offset
          → (if is_empty current then offset else start) ≡ length h.before
      begins [] start s e = unfold is_empty in omega (arith, e)
      begins (c ∷ cs) start (inl s) e = cc
      begins (c ∷ cs) start (inr s) e = unfold is_empty in s

  module _ (P : StringLiteral → Type 0)
      (keeps : (l : StringLiteral) → IsStringOf index address bytes l → P l) where
    -- The state with what is kept of the strings: all of them satisfy `P`, and there is room for one
    -- more unless the state is full.
    pub record Invariant (offset : ℕ) (rest : Bytes) (scan : Scan) : Type 0 where
      pub holds : Holds bytes offset rest scan
      pub all : All P scan.strings
      pub bounded : length scan.strings ≤ max_strings
      pub room : scan.full ≡ false → length scan.strings < max_strings

    end_string-Invariant :
        (offset byte : ℕ) (rest : Bytes) (scan : Scan)
        → (byte == 0) ≡ true
        → scan.full ≡ false
        → Invariant offset (byte ∷ rest) scan
        → Invariant (offset + 1) rest (end_string index address scan)
    unfolding end_string
    end_string-Invariant offset byte rest scan zero_byte unfilled i =
        elim (Bool-cases (leb 2 (length scan.current))) [
          | inl e ↦ rw e (record {
            holds = cleared bytes offset byte rest scan _ refl i.holds;
            all =
                All-append P scan.strings _ i.all
                  (keeps _ (ended-IsStringOf offset byte rest scan zero_byte e i.holds), tt);
            bounded = omega (arith, length-append scan.strings (_ ∷ []), i.room unfilled);
            room = λ f. omega (arith, length-append scan.strings (_ ∷ []), leb→lt _ _ f);
          })
          | inr e ↦ rw e (record {
            holds = cleared bytes offset byte rest scan _ refl i.holds;
            all = i.all;
            bounded = i.bounded;
            room = i.room;
          })
        ]

    scan_byte-Invariant :
        (offset byte : ℕ) (rest : Bytes) (scan : Scan)
        → scan.full ≡ false
        → Invariant offset (byte ∷ rest) scan
        → Invariant (offset + 1) rest (scan_byte index address offset byte scan)
    unfolding scan_byte
    scan_byte-Invariant offset byte rest scan unfilled i = elim (Bool-cases (byte == 0)) [
      | inl z ↦ rw z (end_string-Invariant offset byte rest scan z unfilled i)
      | inr nz ↦ elim (Bool-cases (printable_string_byte byte)) [
        | inl p ↦
            rw (nz, p)
              (record {
                holds = printed offset byte rest scan p i.holds;
                all = i.all;
                bounded = i.bounded;
                room = i.room;
              })
        | inr p ↦
            rw (nz, p)
              (record {
                holds = cleared bytes offset byte rest scan _ refl i.holds;
                all = i.all;
                bounded = i.bounded;
                room = i.room;
              })
      ]
    ]

    -- What is left of the invariant behind the loop.
    abbrev pub Kept : Scan → Type 0
    Kept scan =
        All P scan.strings
        × (length scan.strings ≤ max_strings)
        × (scan.full ≡ false → length scan.strings < max_strings)

    Kept-if :
        (b : Bool) (next rest : Scan)
        → Kept next
        → (b ≡ false → Kept rest)
        → Kept (if b then next else rest)
    Kept-if true next rest k h = k
    Kept-if false next rest k h = h refl

    pub scan_bytes-Kept :
        (rest : Bytes) (offset : ℕ) (scan : Scan)
        → scan.full ≡ false
        → Invariant offset rest scan
        → Kept (scan_bytes index address rest offset scan)
    unfolding scan_bytes
    scan_bytes-Kept [] offset scan unfilled i = (i.all, i.bounded, i.room)
    scan_bytes-Kept (byte ∷ rest) offset scan unfilled i =
        let next = scan_byte index address offset byte scan in
        let j = scan_byte-Invariant offset byte rest scan unfilled i in
        Kept-if next.full next (scan_bytes index address rest (offset + 1) next)
          (j.all, j.bounded, j.room) λ f. scan_bytes-Kept rest (offset + 1) next f j
