-- ===== src/Base/Results.antt =====
-- Rust's `Result<T, E>`, with `?` as the bind of a `do` block.
use mathlib.Core.Path.{◌≡◌, refl}
use Prim.Native.String.{String}
use mathlib.Core.Bool.{Bool, true, false}
use mathlib.Core.Logic.{◌⊎◌, inl, inr}
use mathlib.Core.Option.{Option, none, some}

pub data Result {ℓ κ} (E : Type κ) (A : Type ℓ) : Type (ℓ ⊔ κ) where
  ok : A → Result E A
  err : E → Result E A

infixl 5 ◌>>=◌
-- `?`: go on with the value, or return the error.
abbrev pub ◌>>=◌ {ι ℓ κ} :
    {E : Type ι} {A : Type ℓ} {B : Type κ} → Result E A → (A → Result E B) → Result E B
(err e) >>= next = err e
(ok value) >>= next = next value

infixl 5 ◌>>◌
abbrev pub ◌>>◌ {ι κ} : {E : Type ι} {B : Type κ} → Result E (Unit {0}) → Result E B → Result E B
first >> rest = first >>= λ (_ : Unit {0}). rest

abbrev pub map_err {ℓ ι κ} :
    {E : Type ι} {F : Type κ} {A : Type ℓ} → (E → F) → Result E A → Result F A
map_err f (ok a) = ok a
map_err f (err e) = err (f e)

-- The successful value, or the given default.
abbrev pub ok_or_default {ℓ ι} : {E : Type ι} {A : Type ℓ} → A → Result E A → A
ok_or_default d (ok a) = a
ok_or_default d (err e) = d

-- `Option::map(f).transpose()?.unwrap_or_default()`, with the default written out.
abbrev pub transpose_or {ℓ ι κ} :
    {E : Type ι} {A : Type ℓ} {B : Type κ} → (A → Result E B) → B → Option A → Result E B
transpose_or f d none = ok d
transpose_or f d (some a) = f a

module _ {ι ℓ κ} {E : Type ι} {A : Type ℓ} {B : Type κ} where
  -- What is known when a chain of two steps succeeds.
  pub >>=-eq-ok :
      (first : Result E A) (next : A → Result E B) {b : B}
      → (first >>= next) ≡ ok b
      → (value : A) × (first ≡ ok value) × (next value ≡ ok b)
  >>=-eq-ok (err e) next h = cc
  >>=-eq-ok (ok value) next h = (value, refl, h)

-- A function that may also panic fails with its own error or with the message of the panic.
pub data Fault {ℓ} (E : Type ℓ) : Type ℓ where
  failed : E → Fault E
  panicked : String → Fault E

-- `?` in such a function, on a call that cannot panic.
abbrev pub attempt {ℓ ι} : {E : Type ι} {A : Type ℓ} → Result E A → Result (Fault E) A
attempt (ok a) = ok a
attempt (err e) = err (failed e)

-- `map_err` on a call that may panic.
abbrev pub map_failed {ℓ ι κ} :
    {E : Type ι} {F : Type κ} {A : Type ℓ} → (E → F) → Result (Fault E) A → Result (Fault F) A
map_failed f (ok a) = ok a
map_failed f (err (failed e)) = err (failed (f e))
map_failed f (err (panicked m)) = err (panicked m)

-- `assert!`
abbrev pub assert {ι} : {E : Type ι} → Bool → String → Result (Fault E) (Unit {0})
assert true m = ok tt
assert false m = err (panicked m)

-- To split on a computed result and keep the equation.
pub Result-cases {ℓ ι} :
    {E : Type ι} {A : Type ℓ} (r : Result E A) → ((a : A) × (r ≡ ok a)) ⊎ ((e : E) × (r ≡ err e))
Result-cases (ok a) = inl (a, refl)
Result-cases (err e) = inr (e, refl)

pub ok-injective {ℓ ι} :
    {E : Type ι} {A : Type ℓ} {a b : A} → ◌≡◌ {A = Result E A} (ok a) (ok b) → a ≡ b
ok-injective e = cc

pub map_err-eq-ok {ℓ ι κ} :
    {E : Type ι} {F : Type κ} {A : Type ℓ} (f : E → F) (r : Result E A) {a : A}
    → map_err f r ≡ ok a
    → r ≡ ok a
map_err-eq-ok f (ok a) e = cc
map_err-eq-ok f (err x) e = cc

pub attempt-eq-ok {ℓ ι} :
    {E : Type ι} {A : Type ℓ} (r : Result E A) {a : A} → attempt r ≡ ok a → r ≡ ok a
attempt-eq-ok (ok a) e = cc
attempt-eq-ok (err x) e = cc
