-- ===== src/Agent/Forward.antt =====
-- src/agent.rs: a reapply is never rolled back.
use deptool.Base.{
  ◌≡◌, refl, ◌∙◌, String, ℕ, suc, ◌+◌, Bool, true, false, Option, List, [], ◌∷◌, ◌++◌, Result, ok,
  err, arith, if◌then◌else◌, Result-cases, inl, inr,
}
use deptool.BTreeMap.{BTreeMap}
use deptool.Types.{Oid, PathBuf}
use deptool.Error.{ApplyError, StoreError}
use deptool.Protocol.{ApplyMode, reapply, Message, apply}
use deptool.Store.Repository.{Repository}
use deptool.FileSystem.{FileSystem}
use deptool.Io.{modify}
use deptool.Io.Keeps.{
  Keeps, pure-Keeps, fail-Keeps, reads-Keeps, bind-Keeps, then-Keeps, assert_io-Keeps, try-Keeps,
}
use deptool.Plan.Changes.{AppDiff, SystemDiff}
use deptool.Checkout.Disk.{DiskIo}
use deptool.Checkout.Apps.{CheckoutMode}
use deptool.Agent.Session.{
  AgentSession, Activate, ApplyContext, DesiredState, SessionState, unlocked, locked, log,
  emit_message, on_disk, on_store, from_store, activate, run_activation,
}
use deptool.Agent.Apply.{
  prepare_apply, set_target_ref, checkout_apps, desired_state, complete_apply, after_activation,
  apply_modification,
}
use deptool.Agent.Requests.{report_apply, apply_prepared, handle_apply, handle_request}

-- The messages that tell of a rollback.
abbrev pub is_rollback : Message → Bool
is_rollback Message.rolling_back = true
is_rollback (Message.rolled_back _) = true
is_rollback (Message.rollback_failed _ _) = true
is_rollback _ = false

abbrev pub count_rollback : List Message → ℕ
count_rollback [] = 0
count_rollback (m ∷ ms) = if is_rollback m then suc (count_rollback ms) else count_rollback ms

pub count_rollback-append :
    (xs ys : List Message) → count_rollback (xs ++ ys) ≡ count_rollback xs + count_rollback ys
count_rollback-append [] ys = ground arith
count_rollback-append (x ∷ xs) ys = ground (arith, count_rollback-append xs ys)

module _ (R : Repository) (F : FileSystem R) where
  abbrev pub rollbacks : AgentSession R F → ℕ
  rollbacks a = count_rollback a.emitted

  log-Keeps : (line : String) → Keeps rollbacks (log R F line)
  unfolding log modify
  log-Keeps line = record { same = λ a. refl }

  emit-Keeps : (m : Message) → is_rollback m ≡ false → Keeps rollbacks (emit_message R F m)
  unfolding emit_message modify
  emit-Keeps m h = record {
    same = λ a. count_rollback-append a.emitted (m ∷ []) ∙ rw h (ground arith);
  }

  from_store-Keeps :
      {A : Type 0} (f : R.State → Result StoreError A) → Keeps rollbacks (from_store R F f)
  unfolding from_store
  from_store-Keeps f = record { same = λ a. refl }

  on_store-Keeps : (f : R.State → Result StoreError R.State) → Keeps rollbacks (on_store R F f)
  unfolding on_store
  on_store-Keeps f = record {
    same = λ a. elim (Result-cases (f a.store)) [ inl (s, e) ↦ rw e refl | inr (s, e) ↦ rw e refl ];
  }

  on_disk-Keeps : {A : Type 0} (m : DiskIo F A) → Keeps rollbacks (on_disk R F m)
  unfolding on_disk
  on_disk-Keeps m = record { same = λ a. refl }

  checkout_apps-Keeps :
      (commit : Option Oid) (diffs : BTreeMap String AppDiff) (mode : CheckoutMode)
      → Keeps rollbacks (checkout_apps R F commit diffs mode)
  unfolding checkout_apps on_disk
  checkout_apps-Keeps commit diffs mode = record { same = λ a. refl }

  desired_state-Keeps : (oid : Oid) → Keeps rollbacks (desired_state R F oid)
  unfolding desired_state
  desired_state-Keeps oid = bind-Keeps _ _ _ (reads-Keeps _ _) λ host.
      bind-Keeps _ _ _ (reads-Keeps _ _) λ apps_dir.
        bind-Keeps _ _ _ (from_store-Keeps _) λ networkd.
          bind-Keeps _ _ _ (from_store-Keeps _) λ quadlets.
            bind-Keeps _ _ _ (from_store-Keeps _)
              λ sysusers. bind-Keeps _ _ _ (from_store-Keeps _) λ units. pure-Keeps _ _

  set_target_ref-Keeps :
      (ctx : ApplyContext) (system : SystemDiff PathBuf)
      → Keeps rollbacks (set_target_ref R F ctx system reapply)
  unfolding set_target_ref
  set_target_ref-Keeps ctx system =
      then-Keeps _ _ _ (assert_io-Keeps _ _ _)
        (bind-Keeps _ _ _ (reads-Keeps _ _) λ target. assert_io-Keeps _ _ _)

  complete_apply-Keeps :
      (ctx : ApplyContext) (system : SystemDiff PathBuf)
      → Keeps rollbacks (complete_apply R F ctx system)
  unfolding complete_apply
  complete_apply-Keeps ctx system = then-Keeps _ _ _ (on_store-Keeps _) (
      bind-Keeps _ _ _ (reads-Keeps _ _) λ host. then-Keeps _ _ _ (on_store-Keeps _) (
        bind-Keeps _ _ _ (reads-Keeps _ _) λ apps_dir.
          then-Keeps _ _ _ (on_disk-Keeps _) (then-Keeps _ _ _ (log-Keeps _) (emit-Keeps _ refl))))

  report_apply-Keeps : (r : Result ApplyError (Unit {0})) → Keeps rollbacks (report_apply R F r)
  report_apply-Keeps (ok _) = pure-Keeps _ tt
  report_apply-Keeps (err e) = then-Keeps _ _ _ (log-Keeps _) (emit-Keeps _ refl)

  module _ (activator : Activate R F)
      (forward : (mode : ApplyMode) (desired : DesiredState) (changes : SystemDiff PathBuf)
          (files : F.State)
        → count_rollback (activator mode desired changes files).messages ≡ 0) where
    activate-Keeps :
        (mode : ApplyMode) (desired : DesiredState) (changes : SystemDiff PathBuf)
        → Keeps rollbacks (activate R F activator mode desired changes)
    unfolding activate run_activation
    activate-Keeps mode desired changes = record {
      same = λ a.
          count_rollback-append a.emitted (activator mode desired changes a.files).messages
          ∙ rw (forward mode desired changes a.files) (ground arith);
    }

    module _ (operator : String) (current : Option Oid) (target : Oid) where
      abbrev context : ApplyContext
      context = record {
        operator = operator;
        current_commit = current;
        target_commit = target;
        mode = reapply;
      }

      prepare_apply-Keeps : Keeps rollbacks (prepare_apply R F context)
      unfolding prepare_apply
      prepare_apply-Keeps = then-Keeps _ _ _ (log-Keeps _) (
          bind-Keeps _ _ _ (reads-Keeps _ _) λ host. bind-Keeps _ _ _ (reads-Keeps _ _) λ apps_dir.
            bind-Keeps _ _ _ (from_store-Keeps _)
              λ diffs. then-Keeps _ _ _ (set_target_ref-Keeps context diffs.1) (pure-Keeps _ diffs))

      after_activation-Keeps :
          (system : SystemDiff PathBuf) (r : Result ApplyError (Unit {0}))
          → Keeps rollbacks (after_activation R F activator context system r)
      unfolding after_activation
      after_activation-Keeps system (ok _) = complete_apply-Keeps context system
      after_activation-Keeps system (err error) = fail-Keeps _ _

      apply_modification-Keeps :
          (diffs : BTreeMap String AppDiff) (system : SystemDiff PathBuf)
          → Keeps rollbacks (apply_modification R F activator context diffs system)
      unfolding apply_modification
      apply_modification-Keeps diffs system = then-Keeps _ _ _ (checkout_apps-Keeps _ diffs _) (
          bind-Keeps _ _ _ (desired_state-Keeps target) λ desired.
            bind-Keeps _ _ _ (try-Keeps _ _ (activate-Keeps reapply desired system))
              λ activated. after_activation-Keeps system activated)

      apply_prepared-Keeps :
          (r : Result ApplyError (BTreeMap String AppDiff × SystemDiff PathBuf))
          → Keeps rollbacks (apply_prepared R F activator context r)
      unfolding apply_prepared
      apply_prepared-Keeps (err e) = then-Keeps _ _ _ (log-Keeps _) (emit-Keeps _ refl)
      apply_prepared-Keeps (ok (diffs, system)) =
          bind-Keeps _ _ _ (try-Keeps _ _ (apply_modification-Keeps diffs system))
            λ applied. report_apply-Keeps applied

    handle_apply-Keeps :
        (target : Oid) (session : SessionState)
        → Keeps rollbacks (handle_apply R F activator target reapply session)
    unfolding handle_apply
    handle_apply-Keeps target unlocked = fail-Keeps _ _
    handle_apply-Keeps target (locked operator) = bind-Keeps _ _ _ (reads-Keeps _ _) λ current.
        bind-Keeps _ _ _ (try-Keeps _ _ (prepare_apply-Keeps operator current target))
          λ prepared. apply_prepared-Keeps operator current target prepared

    reapply-Keeps :
        (target : Oid) → Keeps rollbacks (handle_request R F activator (apply target reapply))
    unfolding handle_request
    reapply-Keeps target =
        bind-Keeps _ _ _ (reads-Keeps _ _) λ session. handle_apply-Keeps target session

    -- Whether it succeeds, fails or panics, a reapply emits no message of a rollback.
    pub reapply-forward :
        (target : Oid) (a : AgentSession R F)
        → rollbacks (handle_request R F activator (apply target reapply) a).1 ≡ rollbacks a
    reapply-forward target a = (reapply-Keeps target).same a
