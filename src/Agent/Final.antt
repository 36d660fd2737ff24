-- ===== src/Agent/Final.antt =====
-- src/agent.rs: the message that ends an apply request.
pub mod Quiet
pub mod Answer
use deptool.Base.{
  ◌≡◌, refl, sym, ◌∙◌, ap, String, ℕ, suc, ◌+◌, Bool, true, false, Option, none, some, List, [],
  ◌∷◌, ◌++◌, Result, ok, err, Fault, failed, panicked, length, filter, any, arith, if◌then◌else◌,
  Bool-cases, inl, inr,
}
use deptool.BTreeMap.{BTreeMap}
use deptool.Types.{Oid, PathBuf}
use deptool.Error.{ApplyError}
use deptool.Protocol.{
  ApplyMode, Message, apply_complete, rolled_back, apply_failed, rollback_failed, error_pre_apply,
  Request, apply,
}
use deptool.Store.Repository.{Repository}
use deptool.FileSystem.{FileSystem}
use deptool.Io.{Io, pure, fail, try, continue, inspect, ◌>>=◌, ◌>>◌}
use deptool.Plan.Changes.{AppDiff, SystemDiff}
use deptool.Agent.Session.{
  AgentSession, Action, Activate, ApplyContext, DesiredState, SessionState, locked, log,
  emit_message, on_disk, on_store, from_store, activate,
}

-- The messages that end an apply request.
abbrev pub is_final : Message → Bool
is_final (apply_complete _ _ _ _) = true
is_final (rolled_back _) = true
is_final (apply_failed _) = true
is_final (rollback_failed _ _) = true
is_final (error_pre_apply _) = true
is_final _ = false

abbrev pub count_final : List Message → ℕ
count_final [] = 0
count_final (m ∷ ms) = if is_final m then suc (count_final ms) else count_final ms

pub count_final-append :
    (xs ys : List Message) → count_final (xs ++ ys) ≡ count_final xs + count_final ys
count_final-append [] ys = ground arith
count_final-append (x ∷ xs) ys = ground (arith, count_final-append xs ys)

module _ (R : Repository) (F : FileSystem R) where
  abbrev pub finals : AgentSession R F → ℕ
  finals a = count_final a.emitted

  -- The action emits no final message.
  pub record IsQuiet {A : Type 0} (m : Action R F A) : Type 0 where
    pub same : (a : AgentSession R F) → finals (m a).1 ≡ finals a

  abbrev pub Counted : {A : Type 0} → Result (Fault ApplyError) A → ℕ → ℕ → Type 0
  Counted (ok _) before after = after ≡ suc before
  Counted (err (failed _)) before after = after ≡ before
  Counted (err (panicked _)) before after = Unit {0}

  -- The action emits one final message if it succeeds, and none if it returns an error.
  pub record IsFinal {A : Type 0} (m : Action R F A) : Type 0 where
    pub counts : (a : AgentSession R F) → Counted (m a).0 (finals a) (finals (m a).1)

  pub continue-quiet :
      {A B : Type 0} (r : Result (Fault ApplyError) A) (a : AgentSession R F)
      (next : A → Action R F B) (n : ℕ)
      → finals a ≡ n
      → ((x : A) → IsQuiet (next x))
      → finals (continue (r, a) next).1 ≡ n
  continue-quiet (ok x) a next n h k = (k x).same a ∙ h
  continue-quiet (err e) a next n h k = h

  pub bind-IsQuiet :
      {A B : Type 0} (m : Action R F A) (next : A → Action R F B)
      → IsQuiet m
      → ((x : A) → IsQuiet (next x))
      → IsQuiet (m >>= next)
  unfolding ◌>>=◌
  bind-IsQuiet m next h k = record {
    same = λ a. continue-quiet (m a).0 (m a).1 next (finals a) (h.same a) k;
  }

  Counted-eq :
      {A : Type 0} (r : Result (Fault ApplyError) A) (b c n : ℕ)
      → b ≡ c
      → Counted r b n
      → Counted r c n
  Counted-eq r b c n e h = rw (← e) h

  pub continue-final :
      {A B : Type 0} (r : Result (Fault ApplyError) A) (a : AgentSession R F)
      (next : A → Action R F B) (n : ℕ)
      → finals a ≡ n
      → ((x : A) → IsFinal (next x))
      → Counted (continue (r, a) next).0 n (finals (continue (r, a) next).1)
  continue-final (ok x) a next n h k = Counted-eq (next x a).0 _ n _ h ((k x).counts a)
  continue-final (err (failed e)) a next n h k = h
  continue-final (err (panicked m)) a next n h k = tt

  pub bind-IsFinal :
      {A B : Type 0} (m : Action R F A) (next : A → Action R F B)
      → IsQuiet m
      → ((x : A) → IsFinal (next x))
      → IsFinal (m >>= next)
  unfolding ◌>>=◌
  bind-IsFinal m next h k = record {
    counts = λ a. continue-final (m a).0 (m a).1 next (finals a) (h.same a) k;
  }

  pub inspect-quiet :
      {A : Type 0} (r : Result (Fault ApplyError) A) (a : AgentSession R F) (n : ℕ)
      → finals a ≡ n
      → finals (inspect (r, a)).1 ≡ n
  inspect-quiet (ok x) a n h = h
  inspect-quiet (err (failed e)) a n h = h
  inspect-quiet (err (panicked m)) a n h = h

  pub try-IsQuiet : {A : Type 0} (m : Action R F A) → IsQuiet m → IsQuiet (try m)
  unfolding try
  try-IsQuiet m h = record { same = λ a. inspect-quiet (m a).0 (m a).1 (finals a) (h.same a) }

  -- The action is run after the final message, and emits no other.
  pub record IsSettled {A : Type 0} (m : Action R F A) : Type 0 where
    pub settles :
        (a : AgentSession R F) (n : ℕ) → finals a ≡ suc n → Counted (m a).0 n (finals (m a).1)

  inspect-final :
      {A B : Type 0} (r : Result (Fault ApplyError) A) (a : AgentSession R F)
      (report : Result ApplyError A → Action R F B) (n : ℕ)
      → Counted r n (finals a)
      → ((x : A) → IsSettled (report (ok x)))
      → ((e : ApplyError) → IsFinal (report (err e)))
      → Counted (continue (inspect (r, a)) report).0 n (finals (continue (inspect (r, a)) report).1)
  inspect-final (ok x) a report n h done fails = (done x).settles a n h
  inspect-final (err (failed e)) a report n h done fails =
      Counted-eq (report (err e) a).0 _ n _ h ((fails e).counts a)
  inspect-final (err (panicked m)) a report n h done fails = tt

  -- The report of a failure takes the place of the final message that the failure prevented.
  pub report-IsFinal :
      {A B : Type 0} (m : Action R F A) (report : Result ApplyError A → Action R F B)
      → IsFinal m
      → ((x : A) → IsSettled (report (ok x)))
      → ((e : ApplyError) → IsFinal (report (err e)))
      → IsFinal (try m >>= report)
  unfolding ◌>>=◌ try
  report-IsFinal m report h done fails = record {
    counts = λ a. inspect-final (m a).0 (m a).1 report (finals a) (h.counts a) done fails;
  }
