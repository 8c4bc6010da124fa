-- ===== src/Core/Result.antt =====
-- include/roe/core.hpp: Result, and what its accessor does when it holds an error.
use roe.Base.{
  ℕ, zero, suc, ◌<◌, List, [], ◌∷◌, length, get_elem?, some, All, arith, Bool, true, false, ◌≡◌,
  refl, ◌≢◌,
}
use roe.Core.Error.{Error}

-- `aborted` is no value of the source's Result. It is the end of a run in which `value()` was
-- called on a result that holds an error (the assertion fails, or std::get throws), or in which an
-- element outside a vector was read.
pub data Result {ℓ} (A : Type ℓ) : Type ℓ where
  ok : A → Result A
  err : Error → Result A
  aborted : Result A

infixl 5 ◌>>=◌ ◌>>◌
abbrev pub ◌>>=◌ {ℓ κ} : {A : Type ℓ} {B : Type κ} → Result A → (A → Result B) → Result B
ok a >>= f = f a
err e >>= f = err e
aborted >>= f = aborted

abbrev pub ◌>>◌ {ℓ} : {B : Type ℓ} → Result (Unit {0}) → Result B → Result B
m >> k = m >>= λ _. k

-- `if (test) { return err(e); }`
unfoldable pub reject : Bool → Error → Result (Unit {0})
reject true e = err e
reject false e = ok tt

module _ {ℓ} {A : Type ℓ} where
  -- `r.value()`
  unfoldable pub value : Result A → Result A
  value (ok a) = ok a
  value (err e) = aborted
  value aborted = aborted

  -- `if (!r) { return err(e); }` with an error of the caller's own, and the value after it.
  unfoldable pub or_error : Error → Result A → Result A
  or_error e (ok a) = ok a
  or_error e (err d) = err e
  or_error e aborted = aborted

  -- `v[i]` of a vector.
  unfoldable pub element : List A → ℕ → Result A
  element [] i = aborted
  element (x ∷ xs) zero = ok x
  element (x ∷ xs) (suc i) = element xs i

  pub element-eq :
      (xs : List A) (i : ℕ)
      → i < length xs
      → (a : A) × (element xs i ≡ ok a) × (get_elem? xs i ≡ some a)
  unfolding element
  element-eq [] i h = elim h [ ]
  element-eq (x ∷ xs) zero h = (x, refl, refl)
  element-eq (x ∷ xs) (suc i) h = element-eq xs i (omega arith)

  -- The run does not abort, and a value that it returns satisfies `P`.
  abbrev pub Returns : (A → Type 0) → Result A → Type 0
  Returns P (ok a) = P a
  Returns P (err e) = Unit
  Returns P aborted = ⊥

-- The run returns a value, and it satisfies `P`.
abbrev pub Gives {ℓ} : {A : Type ℓ} → (A → Type 0) → Result A → Type 0
Gives P (ok a) = P a
Gives P (err e) = ⊥
Gives P aborted = ⊥

pub Gives-bind {ℓ ι} :
    {A : Type ℓ} {B : Type ι} (P : A → Type 0) (Q : B → Type 0) (m : Result A) (f : A → Result B)
    → Gives P m
    → ((a : A) → P a → Gives Q (f a))
    → Gives Q (m >>= f)
Gives-bind P Q (ok a) f h k = k a h
Gives-bind P Q (err e) f h k = absurd h
Gives-bind P Q aborted f h k = absurd h

pub Gives-Returns {ℓ} : {A : Type ℓ} (P : A → Type 0) (m : Result A) → Gives P m → Returns P m
Gives-Returns P (ok a) h = h
Gives-Returns P (err e) h = absurd h
Gives-Returns P aborted h = absurd h

module _ {ℓ} {A : Type ℓ} (P : A → Type 0) where
  pub Returns-bind {ι} :
      {B : Type ι} (Q : B → Type 0) (m : Result A) (f : A → Result B)
      → Returns P m
      → ((a : A) → P a → Returns Q (f a))
      → Returns Q (m >>= f)
  Returns-bind Q (ok a) f h k = k a h
  Returns-bind Q (err e) f h k = tt
  Returns-bind Q aborted f h k = absurd h

  pub Returns-value : (m : Result A) (a : A) → m ≡ ok a → P a → Returns P (value m)
  unfolding value
  Returns-value m a e h = subst_ok
    where
      subst_ok : Returns P (value m)
      subst_ok = rw e h

  pub Returns-or_error : (e : Error) (m : Result A) → Returns P m → Returns P (or_error e m)
  unfolding or_error
  Returns-or_error e (ok a) h = h
  Returns-or_error e (err d) h = tt
  Returns-or_error e aborted h = absurd h

  pub Returns-element : (xs : List A) (i : ℕ) → i < length xs → All P xs → Returns P (element xs i)
  unfolding element
  Returns-element [] i h all = elim h [ ]
  Returns-element (x ∷ xs) zero h all = all.0
  Returns-element (x ∷ xs) (suc i) h all = Returns-element xs i (omega arith) all.1

  pub Returns-weaken :
      (Q : A → Type 0) (m : Result A) → Returns P m → ((a : A) → P a → Q a) → Returns Q m
  Returns-weaken Q (ok a) h k = k a h
  Returns-weaken Q (err e) h k = tt
  Returns-weaken Q aborted h k = absurd h

  pub Returns-ok : (m : Result A) (a : A) → m ≡ ok a → Returns P m → P a
  Returns-ok m a e h = rw e at h

  pub Returns-ne-aborted : (m : Result A) → Returns P m → m ≢ aborted
  Returns-ne-aborted (ok a) h e = cc
  Returns-ne-aborted (err d) h e = cc
  Returns-ne-aborted aborted h e = absurd h

pub reject-Returns : (b : Bool) (e : Error) → Returns (λ _. b ≡ false) (reject b e)
unfolding reject
reject-Returns true e = tt
reject-Returns false e = refl

pub bind_reject {ℓ} :
    {B : Type ℓ} (Q : B → Type 0) (b : Bool) (e : Error) (f : Unit {0} → Result B)
    → (b ≡ false → Returns Q (f tt))
    → Returns Q (reject b e >>= f)
unfolding reject
bind_reject Q true e f h = tt
bind_reject Q false e f h = h refl
