-- ===== src/Io/Keeps.antt =====
-- What an action leaves alone: a view of the state that is the same before and after, also when the
-- action fails.
use deptool.Base.{
  ◌≡◌, refl, ◌∙◌, String, Bool, true, false, Option, none, some, Result, ok, err, Fault, failed,
  panicked,
}
use deptool.Io.{
  Io, pure, fail, lift, reads, lift_reads, when, continue, inspect, try, expect, assert_io, ◌>>=◌,
  ◌>>◌,
}

module _ {ℓ κ} {S : Type ℓ} {V : Type κ} {E : Type 0} (view : S → V) where
  pub record Keeps {A : Type 0} (m : Io S E A) : Type (ℓ ⊔ κ) where
    pub same : (s : S) → view (m s).1 ≡ view s

  pub pure-Keeps : {A : Type 0} (x : A) → Keeps (pure x)
  unfolding pure
  pure-Keeps x = record { same = λ s. refl }

  pub fail-Keeps : {A : Type 0} (e : E) → Keeps {A = A} (fail e)
  unfolding fail
  fail-Keeps e = record { same = λ s. refl }

  pub lift-Keeps : {A : Type 0} (r : Result E A) → Keeps (lift r)
  unfolding lift
  lift-Keeps r = record { same = λ s. refl }

  pub reads-Keeps : {A : Type 0} (f : S → A) → Keeps (reads f)
  unfolding reads
  reads-Keeps f = record { same = λ s. refl }

  pub lift_reads-Keeps : {A : Type 0} (f : S → Result E A) → Keeps (lift_reads f)
  unfolding lift_reads
  lift_reads-Keeps f = record { same = λ s. refl }

  pub when-Keeps : (b : Bool) (m : Io S E (Unit {0})) → Keeps m → Keeps (when b m)
  when-Keeps true m k = k
  when-Keeps false m k = pure-Keeps tt

  continue-same :
      {A B : Type 0} (r : Result E A) (s : S) (next : A → Io S E B) (v : V)
      → view s ≡ v
      → ((x : A) → Keeps (next x))
      → view (continue (r, s) next).1 ≡ v
  continue-same (ok x) s next v h k = (k x).same s ∙ h
  continue-same (err e) s next v h k = h

  pub bind-Keeps :
      {A B : Type 0} (m : Io S E A) (next : A → Io S E B)
      → Keeps m
      → ((x : A) → Keeps (next x))
      → Keeps (m >>= next)
  unfolding ◌>>=◌
  bind-Keeps m next h k = record {
    same = λ s. continue-same (m s).0 (m s).1 next (view s) (h.same s) k;
  }

  pub then-Keeps :
      {B : Type 0} (m : Io S E (Unit {0})) (next : Io S E B)
      → Keeps m
      → Keeps next
      → Keeps (m >> next)
  then-Keeps m next h k = bind-Keeps m (λ _. next) h (λ _. k)

module _ {ℓ κ} {S : Type ℓ} {V : Type κ} {E : Type 0} (view : S → V) where
  pub assert_io-Keeps :
      (b : Bool) (message : String) → Keeps {E = Fault E} view (assert_io b message)
  assert_io-Keeps true message = pure-Keeps view tt
  assert_io-Keeps false message = fail-Keeps view (panicked message)

  pub expect-Keeps :
      {A : Type 0} (o : Option A) (message : String) → Keeps {E = Fault E} view (expect o message)
  expect-Keeps none message = fail-Keeps view (panicked message)
  expect-Keeps (some x) message = pure-Keeps view x

continue-eq-ok {ℓ} :
    {S : Type ℓ} {E A B : Type 0} (r : Result E A) (s : S) (next : A → Io S E B) {y : B}
    → (continue (r, s) next).0 ≡ ok y
    → (x : A) × (r ≡ ok x) × (continue (r, s) next ≡ next x s) × ((next x s).0 ≡ ok y)
continue-eq-ok (ok x) s next h = (x, refl, refl, h)
continue-eq-ok (err e) s next h = cc

-- What follows a successful action: the first step succeeded, and the rest ran from where it ended.
pub bind-eq-ok {ℓ} :
    {S : Type ℓ} {E A B : Type 0} (m : Io S E A) (next : A → Io S E B) (s : S) {y : B}
    → ((m >>= next) s).0 ≡ ok y
    → (x : A) × ((m s).0 ≡ ok x) × ((m >>= next) s ≡ next x (m s).1) × ((next x (m s).1).0 ≡ ok y)
unfolding ◌>>=◌
bind-eq-ok m next s h = continue-eq-ok (m s).0 (m s).1 next h

-- A branch on a test.
pub elim-Keeps {ℓ κ} :
    {S : Type ℓ} {V : Type κ} {E A : Type 0} (view : S → V) (b : Bool) (m n : Io S E A)
    → Keeps view m
    → Keeps view n
    → Keeps view (elim b [ true ↦ m | false ↦ n ])
elim-Keeps view true m n h k = h
elim-Keeps view false m n h k = k

module _ {ℓ κ} {S : Type ℓ} {V : Type κ} {E A : Type 0} (view : S → V) where
  inspect-same : (r : Result (Fault E) A) (s : S) (v : V) → view s ≡ v → view (inspect (r, s)).1 ≡ v
  inspect-same (ok x) s v h = h
  inspect-same (err (failed e)) s v h = h
  inspect-same (err (panicked m)) s v h = h

  pub try-Keeps : (m : Io S (Fault E) A) → Keeps view m → Keeps view (try m)
  unfolding try
  try-Keeps m k = record { same = λ s. inspect-same (m s).0 (m s).1 (view s) (k.same s) }
