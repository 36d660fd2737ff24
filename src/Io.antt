-- ===== src/Io.antt =====
-- Code that changes a state and may fail: the state that it leaves, also when it fails, and the
-- result. `?` is the bind of a `do` block.
pub mod Keeps
use deptool.Base.{
  String, Bool, true, false, Result, ok, err, Option, none, some, Fault, failed, panicked,
}

abbrev pub Io {ℓ} : Type ℓ → Type 0 → Type 0 → Type ℓ
Io S E A = S → Result E A × S

module _ {ℓ} {S : Type ℓ} {E A : Type 0} where
  unfoldable pub pure : A → Io S E A
  pure a s = (ok a, s)

  unfoldable pub fail : E → Io S E A
  fail e s = (err e, s)

  -- A call that cannot change the state.
  unfoldable pub lift : Result E A → Io S E A
  lift r s = (r, s)

  unfoldable pub reads : (S → A) → Io S E A
  reads f s = (ok (f s), s)

  unfoldable pub lift_reads : (S → Result E A) → Io S E A
  lift_reads f s = (f s, s)

unfoldable pub modify {ℓ} : {S : Type ℓ} {E : Type 0} → (S → S) → Io S E (Unit {0})
modify f s = (ok tt, f s)

module _ {ℓ} {S : Type ℓ} {E A B : Type 0} where
  abbrev pub continue : Result E A × S → (A → Io S E B) → Result E B × S
  continue (ok a, s) next = next a s
  continue (err e, s) next = (err e, s)

infixl 5 ◌>>=◌
unfoldable pub ◌>>=◌ {ℓ} : {S : Type ℓ} {E A B : Type 0} → Io S E A → (A → Io S E B) → Io S E B
(first >>= next) s = continue (first s) next

infixl 5 ◌>>◌
abbrev pub ◌>>◌ {ℓ} : {S : Type ℓ} {E B : Type 0} → Io S E (Unit {0}) → Io S E B → Io S E B
first >> rest = first >>= λ (_ : Unit {0}). rest

abbrev pub when {ℓ} : {S : Type ℓ} {E : Type 0} → Bool → Io S E (Unit {0}) → Io S E (Unit {0})
when true action = action
when false action = pure tt

-- The result of a call whose error the caller inspects, while a panic goes on.
module _ {ℓ} {S : Type ℓ} {E A : Type 0} where
  abbrev pub inspect : Result (Fault E) A × S → Result (Fault E) (Result E A) × S
  inspect (ok a, s) = (ok (ok a), s)
  inspect (err (failed e), s) = (ok (err e), s)
  inspect (err (panicked m), s) = (err (panicked m), s)

  unfoldable pub try : Io S (Fault E) A → Io S (Fault E) (Result E A)
  try action s = inspect (action s)

  -- `map_err`, which leaves a panic alone.
  abbrev relabel : (E → E) → Result (Fault E) A × S → Result (Fault E) A × S
  relabel f (ok a, s) = (ok a, s)
  relabel f (err (failed e), s) = (err (failed (f e)), s)
  relabel f (err (panicked m), s) = (err (panicked m), s)

  unfoldable pub with_error : (E → E) → Io S (Fault E) A → Io S (Fault E) A
  with_error f action s = relabel f (action s)

  -- `expect`
  abbrev pub expect : Option A → String → Io S (Fault E) A
  expect none message = fail (panicked message)
  expect (some a) message = pure a

-- `assert!` and `panic!`
abbrev pub assert_io {ℓ} : {S : Type ℓ} {E : Type 0} → Bool → String → Io S (Fault E) (Unit {0})
assert_io true message = pure tt
assert_io false message = fail (panicked message)
