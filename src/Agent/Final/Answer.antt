-- ===== src/Agent/Final/Answer.antt =====
-- src/agent.rs: an apply request is answered with one final message.
use deptool.Base.{
  ◌≡◌, refl, ◌∙◌, String, suc, Bool, true, false, some, [], ◌∷◌, Result, ok, err, failed, panicked,
  arith,
}
use deptool.BTreeMap.{BTreeMap}
use deptool.Types.{Oid, PathBuf}
use deptool.Error.{ApplyError}
use deptool.Protocol.{ApplyMode, Message, apply}
use deptool.Store.Repository.{Repository}
use deptool.FileSystem.{FileSystem}
use deptool.Io.{pure, fail, modify}
use deptool.Plan.Changes.{AppDiff, SystemDiff}
use deptool.Checkout.Apps.{fresh}
use deptool.Agent.Session.{
  AgentSession, Activate, ApplyContext, DesiredState, SessionState, unlocked, locked, emit_message,
}
use deptool.Agent.Apply.{
  complete_apply, handle_rollback, report_rollback, after_activation, after_failure,
  apply_modification,
}
use deptool.Agent.Requests.{report_apply, apply_prepared, handle_apply, handle_request}
use deptool.Agent.Final.{
  IsQuiet, try-IsQuiet, IsFinal, bind-IsFinal, IsSettled, report-IsFinal, finals, is_final,
  count_final, count_final-append,
}
use deptool.Agent.Final.Quiet.{
  log-IsQuiet, on_store-IsQuiet, on_disk-IsQuiet, reads-IsQuiet, prepare_apply-IsQuiet,
  activate-IsQuiet, try_rollback-IsQuiet, checkout_apps-IsQuiet, desired_state-IsQuiet,
}

module _ (R : Repository) (F : FileSystem R) where
  emit_message-IsQuiet : (m : Message) → is_final m ≡ false → IsQuiet R F (emit_message R F m)
  unfolding emit_message modify
  emit_message-IsQuiet m e = record {
    same = λ a. count_final-append a.emitted (m ∷ []) ∙ ground (arith, e);
  }

  emit_message-IsFinal : (m : Message) → is_final m ≡ true → IsFinal R F (emit_message R F m)
  unfolding emit_message modify
  emit_message-IsFinal m e = record {
    counts = λ a. count_final-append a.emitted (m ∷ []) ∙ ground (arith, e);
  }

  complete_apply-IsFinal :
      (ctx : ApplyContext) (system : SystemDiff PathBuf)
      → IsFinal R F (complete_apply R F ctx system)
  unfolding complete_apply
  complete_apply-IsFinal ctx system = bind-IsFinal R F _ _ (on_store-IsQuiet R F _) λ _.
      bind-IsFinal R F _ _ (reads-IsQuiet R F _) λ host.
        bind-IsFinal R F _ _ (on_store-IsQuiet R F _) λ _.
          bind-IsFinal R F _ _ (reads-IsQuiet R F _) λ apps_dir.
            bind-IsFinal R F _ _ (on_disk-IsQuiet R F _)
              λ _. bind-IsFinal R F _ _ (log-IsQuiet R F _) λ _. emit_message-IsFinal _ refl

  report_rollback-IsFinal :
      (error : ApplyError) (r : Result ApplyError (Unit {0}))
      → IsFinal R F (report_rollback R F error r)
  report_rollback-IsFinal error (ok _) =
      bind-IsFinal R F _ _ (log-IsQuiet R F _) λ _. emit_message-IsFinal _ refl
  report_rollback-IsFinal error (err e) =
      bind-IsFinal R F _ _ (log-IsQuiet R F _) λ _. emit_message-IsFinal _ refl

  report_apply-IsSettled : (u : Unit {0}) → IsSettled R F (report_apply R F (ok u))
  unfolding pure
  report_apply-IsSettled u = record { settles = λ a n h. h }

  report_apply-IsFinal : (e : ApplyError) → IsFinal R F (report_apply R F (err e))
  report_apply-IsFinal e = bind-IsFinal R F _ _ (log-IsQuiet R F _) λ _. emit_message-IsFinal _ refl

  fail-IsFinal : {A : Type 0} (e : ApplyError) → IsFinal R F {A = A} (fail (failed e))
  unfolding fail
  fail-IsFinal e = record { counts = λ a. refl }

  panic-IsFinal : {A : Type 0} (m : String) → IsFinal R F {A = A} (fail (panicked m))
  unfolding fail
  panic-IsFinal m = record { counts = λ a. tt }

  module _ (activator : Activate R F)
      (progress : (mode : ApplyMode) (desired : DesiredState) (changes : SystemDiff PathBuf)
          (files : F.State)
        → count_final (activator mode desired changes files).messages ≡ 0) where
    handle_rollback-IsFinal :
        (error : ApplyError) (ctx : ApplyContext)
        → IsFinal R F (handle_rollback R F activator error ctx)
    unfolding handle_rollback
    handle_rollback-IsFinal error ctx = bind-IsFinal R F _ _ (log-IsQuiet R F _) λ _.
        bind-IsFinal R F _ _ (emit_message-IsQuiet _ refl) λ _.
          bind-IsFinal R F _ _ (try-IsQuiet R F _ (try_rollback-IsQuiet R F activator progress ctx))
            λ attempted. report_rollback-IsFinal error attempted

    rolled-IsFinal :
        (ctx : ApplyContext) (error : ApplyError) (safe : Bool)
        → IsFinal R F (after_failure R F activator ctx error safe)
    rolled-IsFinal ctx error true =
        bind-IsFinal R F _ _ (log-IsQuiet R F _) λ _. handle_rollback-IsFinal error ctx
    rolled-IsFinal ctx error false = fail-IsFinal error

    after_activation-IsFinal :
        (ctx : ApplyContext) (system : SystemDiff PathBuf) (r : Result ApplyError (Unit {0}))
        → IsFinal R F (after_activation R F activator ctx system r)
    unfolding after_activation
    after_activation-IsFinal ctx system (ok _) = complete_apply-IsFinal ctx system
    after_activation-IsFinal ctx system (err error) = rolled-IsFinal ctx error _

    apply_modification-IsFinal :
        (ctx : ApplyContext) (diffs : BTreeMap String AppDiff) (system : SystemDiff PathBuf)
        → IsFinal R F (apply_modification R F activator ctx diffs system)
    unfolding apply_modification
    apply_modification-IsFinal ctx diffs system =
        bind-IsFinal R F _ _ (checkout_apps-IsQuiet R F (some ctx.target_commit) diffs fresh) λ _.
          bind-IsFinal R F _ _ (desired_state-IsQuiet R F ctx.target_commit) λ desired.
            bind-IsFinal R F _ _
              (try-IsQuiet R F _ (activate-IsQuiet R F activator progress ctx.mode desired system))
              λ activated. after_activation-IsFinal ctx system activated

    apply_prepared-IsFinal :
        (ctx : ApplyContext) (r : Result ApplyError (BTreeMap String AppDiff × SystemDiff PathBuf))
        → IsFinal R F (apply_prepared R F activator ctx r)
    unfolding apply_prepared
    apply_prepared-IsFinal ctx (err e) =
        bind-IsFinal R F _ _ (log-IsQuiet R F _) λ _. emit_message-IsFinal _ refl
    apply_prepared-IsFinal ctx (ok (diffs, system)) =
        report-IsFinal R F _ _ (apply_modification-IsFinal ctx diffs system) report_apply-IsSettled
          report_apply-IsFinal

    handle_apply-IsFinal :
        (target : Oid) (mode : ApplyMode) (session : SessionState)
        → IsFinal R F (handle_apply R F activator target mode session)
    unfolding handle_apply
    handle_apply-IsFinal target mode unlocked = panic-IsFinal _
    handle_apply-IsFinal target mode (locked operator) =
        bind-IsFinal R F _ _ (reads-IsQuiet R F _) λ current.
          bind-IsFinal R F _ _ (try-IsQuiet R F _ (prepare_apply-IsQuiet R F _))
            λ prepared. apply_prepared-IsFinal _ prepared

    apply-IsFinal :
        (target : Oid) (mode : ApplyMode)
        → IsFinal R F (handle_request R F activator (apply target mode))
    unfolding handle_request
    apply-IsFinal target mode =
        bind-IsFinal R F _ _ (reads-IsQuiet R F _)
          λ session. handle_apply-IsFinal target mode session

    -- Where activation emits no final message, an apply request that does not panic adds exactly
    -- one final message to what the session emits: the apply completed, it failed, it was rolled
    -- back, the rollback failed, or it failed before it began.
    pub handle_request-final :
        (target : Oid) (mode : ApplyMode) (a : AgentSession R F)
        → (handle_request R F activator (apply target mode) a).0 ≡ ok tt
        → finals R F (handle_request R F activator (apply target mode) a).1 ≡ suc (finals R F a)
    handle_request-final target mode a done = rw done at ((apply-IsFinal target mode).counts a)
