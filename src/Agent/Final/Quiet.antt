-- ===== src/Agent/Final/Quiet.antt =====
-- src/agent.rs: the steps of an apply request that emit no final message.
use deptool.Base.{
  ◌≡◌, refl, ◌∙◌, String, Bool, true, false, Option, none, some, Result, Fault, arith, Result-cases,
  inl, inr,
}
use deptool.BTreeMap.{BTreeMap}
use deptool.Types.{Oid, PathBuf}
use deptool.Error.{ApplyError, StoreError}
use deptool.Protocol.{ApplyMode, deploy, reapply}
use deptool.Store.Repository.{Repository}
use deptool.FileSystem.{FileSystem}
use deptool.Io.{assert_io, pure, reads, lift_reads, fail, modify}
use deptool.Plan.Changes.{AppDiff, SystemDiff}
use deptool.Checkout.Disk.{DiskIo}
use deptool.Checkout.Apps.{CheckoutMode, reuse}
use deptool.Agent.Session.{
  AgentSession, Activate, ApplyContext, DesiredState, log, on_disk, on_store, from_store, activate,
  run_activation,
}
use deptool.Agent.Apply.{
  prepare_apply, set_target_ref, check_descends, desired_or_default, reset_target, checkout_apps,
  desired_state, try_rollback,
}
use deptool.Agent.Final.{IsQuiet, bind-IsQuiet, count_final, count_final-append}

module _ (R : Repository) (F : FileSystem R) where
  pub log-IsQuiet : (line : String) → IsQuiet R F (log R F line)
  unfolding log modify
  log-IsQuiet line = record { same = λ a. refl }

  pub reads-IsQuiet : {A : Type 0} (f : AgentSession R F → A) → IsQuiet R F (reads f)
  unfolding reads
  reads-IsQuiet f = record { same = λ a. refl }

  pure-IsQuiet : {A : Type 0} (x : A) → IsQuiet R F (pure x)
  unfolding pure
  pure-IsQuiet x = record { same = λ a. refl }

  pub from_store-IsQuiet :
      {A : Type 0} (f : R.State → Result StoreError A) → IsQuiet R F (from_store R F f)
  unfolding from_store
  from_store-IsQuiet f = record { same = λ a. refl }

  pub on_store-IsQuiet : (f : R.State → Result StoreError R.State) → IsQuiet R F (on_store R F f)
  unfolding on_store
  on_store-IsQuiet f = record {
    same = λ a. elim (Result-cases (f a.store)) [ inl (s, e) ↦ rw e refl | inr (s, e) ↦ rw e refl ];
  }

  pub on_disk-IsQuiet : {A : Type 0} (m : DiskIo F A) → IsQuiet R F (on_disk R F m)
  unfolding on_disk
  on_disk-IsQuiet m = record { same = λ a. refl }

  assert_io-IsQuiet : (b : Bool) (message : String) → IsQuiet R F (assert_io b message)
  unfolding pure fail
  assert_io-IsQuiet true message = record { same = λ a. refl }
  assert_io-IsQuiet false message = record { same = λ a. refl }

  pub checkout_apps-IsQuiet :
      (commit : Option Oid) (diffs : BTreeMap String AppDiff) (mode : CheckoutMode)
      → IsQuiet R F (checkout_apps R F commit diffs mode)
  unfolding checkout_apps on_disk
  checkout_apps-IsQuiet commit diffs mode = record { same = λ a. refl }

  pub desired_state-IsQuiet : (oid : Oid) → IsQuiet R F (desired_state R F oid)
  unfolding desired_state
  desired_state-IsQuiet oid = bind-IsQuiet R F _ _ (reads-IsQuiet _) λ host.
      bind-IsQuiet R F _ _ (reads-IsQuiet _) λ apps_dir.
        bind-IsQuiet R F _ _ (from_store-IsQuiet _) λ networkd.
          bind-IsQuiet R F _ _ (from_store-IsQuiet _) λ quadlets.
            bind-IsQuiet R F _ _ (from_store-IsQuiet _)
              λ sysusers. bind-IsQuiet R F _ _ (from_store-IsQuiet _) λ units. pure-IsQuiet _

  lift_reads-IsQuiet :
      {A : Type 0} (f : AgentSession R F → Result (Fault ApplyError) A) → IsQuiet R F (lift_reads f)
  unfolding lift_reads
  lift_reads-IsQuiet f = record { same = λ a. refl }

  check_descends-IsQuiet :
      (target : Oid) (current : Option Oid) → IsQuiet R F (check_descends R F target current)
  check_descends-IsQuiet target none = pure-IsQuiet tt
  check_descends-IsQuiet target (some current) =
      bind-IsQuiet R F _ _ (lift_reads-IsQuiet _) λ descends. assert_io-IsQuiet descends _

  set_target_ref-IsQuiet :
      (ctx : ApplyContext) (system : SystemDiff PathBuf) (mode : ApplyMode)
      → IsQuiet R F (set_target_ref R F ctx system mode)
  unfolding set_target_ref
  set_target_ref-IsQuiet ctx system (deploy safe) =
      bind-IsQuiet R F _ _ (check_descends-IsQuiet ctx.target_commit ctx.current_commit)
        λ _. bind-IsQuiet R F _ _ (assert_io-IsQuiet _ _) λ _. on_store-IsQuiet _
  set_target_ref-IsQuiet ctx system reapply =
      bind-IsQuiet R F _ _ (assert_io-IsQuiet _ _)
        λ _. bind-IsQuiet R F _ _ (reads-IsQuiet _) λ target. assert_io-IsQuiet _ _

  pub prepare_apply-IsQuiet : (ctx : ApplyContext) → IsQuiet R F (prepare_apply R F ctx)
  unfolding prepare_apply
  prepare_apply-IsQuiet ctx = bind-IsQuiet R F _ _ (log-IsQuiet _) λ _.
      bind-IsQuiet R F _ _ (reads-IsQuiet _) λ host.
        bind-IsQuiet R F _ _ (reads-IsQuiet _) λ apps_dir.
          bind-IsQuiet R F _ _ (from_store-IsQuiet _) λ diffs.
            bind-IsQuiet R F _ _ (set_target_ref-IsQuiet ctx diffs.1 ctx.mode)
              λ _. pure-IsQuiet diffs

  module _ (activator : Activate R F)
      (progress : (mode : ApplyMode) (desired : DesiredState) (changes : SystemDiff PathBuf)
          (files : F.State)
        → count_final (activator mode desired changes files).messages ≡ 0) where
    pub activate-IsQuiet :
        (mode : ApplyMode) (desired : DesiredState) (changes : SystemDiff PathBuf)
        → IsQuiet R F (activate R F activator mode desired changes)
    unfolding activate run_activation
    activate-IsQuiet mode desired changes = record {
      same = λ a.
          count_final-append a.emitted (activator mode desired changes a.files).messages
          ∙ rw (progress mode desired changes a.files) (ground arith);
    }

    desired_or_default-IsQuiet : (commit : Option Oid) → IsQuiet R F (desired_or_default R F commit)
    desired_or_default-IsQuiet none = pure-IsQuiet _
    desired_or_default-IsQuiet (some oid) = desired_state-IsQuiet oid

    reset_target-IsQuiet :
        (operator : String) (commit : Option Oid) → IsQuiet R F (reset_target R F operator commit)
    reset_target-IsQuiet operator none = pure-IsQuiet _
    reset_target-IsQuiet operator (some good) = on_store-IsQuiet _

    pub try_rollback-IsQuiet : (ctx : ApplyContext) → IsQuiet R F (try_rollback R F activator ctx)
    unfolding try_rollback
    try_rollback-IsQuiet ctx = bind-IsQuiet R F _ _ (reads-IsQuiet _) λ host.
        bind-IsQuiet R F _ _ (reads-IsQuiet _) λ apps_dir.
          bind-IsQuiet R F _ _ (from_store-IsQuiet _) λ diffs.
            bind-IsQuiet R F _ _ (checkout_apps-IsQuiet ctx.current_commit diffs.0 reuse) λ _.
              bind-IsQuiet R F _ _ (desired_or_default-IsQuiet ctx.current_commit) λ desired.
                bind-IsQuiet R F _ _ (activate-IsQuiet ctx.mode desired diffs.1)
                  λ _. reset_target-IsQuiet ctx.operator ctx.current_commit
