-- ===== src/Deploy/Run.antt =====
-- src/deploy.rs: a whole deploy. As the threads of the source work on one host each, the hosts are
-- taken in order.
use deptool.Base.{
  String, ◌<>◌, true, false, Option, some, List, [], ◌∷◌, Result, ok, err, Fault, panicked, attempt,
  length, ltb, string_ord, ◌==◌,
}
use deptool.BTreeMap.{BTreeMap, get}
use deptool.Types.{Oid, Hostname}
use deptool.Error.{
  Error, HostError, StoreError, display_host_error, pre_apply, protocol_error, deploy_failed,
  store_err,
}
use deptool.Protocol.{receive_pack, apply, deploy, Message}
use deptool.Store.Repository.{Repository}
use deptool.Store.Refs.{set_ref, set_main, apply_complete, tracking_ref}
use deptool.Io.{Io, pure, fail, reads, lift_reads, try, expect, ◌>>=◌, ◌>>◌}
use deptool.Plan.Make.{Plan, expected_commits}
use deptool.Deploy.Progress.{
  DeployProgress, pushing, applying, done, failed, num_failed, show_nat, outcome,
}
use deptool.Deploy.Connection.{Transport, Driver, DriverIo, update, change_store, require}
use deptool.Deploy.Messages.{ApplyOutcome, applied, was_rolled_back, read_apply_messages}
use deptool.Deploy.Lock.{StaleHost, connect_and_lock}
use deptool.Sync.{fetch_stale_objects}
use deptool.Deploy.Packs.{build_packs, commit_ord}

module _ (R : Repository) (T : Transport) (lines : String → List String)
    (trim_end : String → String) where
  abbrev pub unwrapped : {A : Type 0} → Result HostError A → DriverIo R T A
  unwrapped (ok a) = pure a
  unwrapped (err e) = fail (Fault.failed e)

  abbrev pack_answer : Option Message → DriverIo R T (Unit {0})
  pack_answer (some Message.pack_received) = pure tt
  pack_answer (some (Message.error_pre_apply apply_err)) = fail (Fault.failed (pre_apply apply_err))
  pack_answer answer =
      fail
        (Fault.failed (protocol_error ("unexpected response to ReceivePack: " <> T.debug answer)))

  -- The tracking reference follows an apply that completed.
  abbrev record_outcome : Hostname → Oid → ApplyOutcome → DriverIo R T (Unit {0})
  record_outcome host commit was_rolled_back = pure tt
  record_outcome host commit (applied applied_commit) = do
    require R T (applied_commit == commit) "applied commit matches plan commit"
    change_store R T (λ s. set_ref R s (tracking_ref host) applied_commit apply_complete)
    update R T host done

  abbrev pub read_progress :
      {A : Type 0}
      → Driver R T
      → Result (Fault HostError) (A × DeployProgress)
      → Result (Fault HostError) A × Driver R T
  read_progress d (ok (a, p)) = (ok a, record d { progress = p })
  read_progress d (err e) = (err e, d)

  unfoldable pub read_outcome : Hostname → T.Conn → DriverIo R T ApplyOutcome
  read_outcome host conn =
      (λ d. read_progress d (read_apply_messages lines trim_end host (T.rest conn) d.progress))
      >>= unwrapped

  unfoldable pub push_and_apply_host :
      Hostname → T.Conn → Plan → BTreeMap (Option Oid) String → DriverIo R T (Unit {0})
  push_and_apply_host host conn plan packs = do
    update R T host pushing
    host_plan ← expect (get host plan.hosts) "no entry found for key"
    encoded ← expect (get host_plan.expected_current packs) "no entry found for key"
    let (sent, conn1) = T.send_request (receive_pack encoded) conn
    unwrapped sent
    let (answer, conn2) = T.read_message conn1
    message ← unwrapped answer
    pack_answer message
    update R T host applying
    let (asked, conn3) =
        T.send_request (apply plan.commit (deploy host_plan.is_rollback_safe)) conn2
    unwrapped asked
    outcome ← read_outcome host (T.close conn3)
    record_outcome host plan.commit outcome

  abbrev report : Hostname → Result HostError (Unit {0}) → DriverIo R T (Unit {0})
  report host (ok _) = pure tt
  report host (err e) = update R T host (failed e)

  unfoldable pub apply_hosts :
      BTreeMap Hostname T.Conn → Plan → BTreeMap (Option Oid) String → DriverIo R T (Unit {0})
  apply_hosts [] plan packs = pure tt
  apply_hosts ((host, conn) ∷ hosts) plan packs = do
    result ← try (push_and_apply_host host conn plan packs)
    report host result
    apply_hosts hosts plan packs

  -- A callee that reports every error of a host in the progress, and so returns none.
  abbrev reported :
      {A : Type 0} → Result (Fault HostError) A × Driver R T → Result (Fault Error) A × Driver R T
  reported (ok a, d) = (ok a, d)
  reported (err (Fault.failed e), d) = (err (panicked (display_host_error e)), d)
  reported (err (panicked m), d) = (err (panicked m), d)

  abbrev in_progress : {A : Type 0} → DriverIo R T A → Io (Driver R T) (Fault Error) A
  in_progress m d = reported (m d)

  abbrev stored :
      Driver R T → Result StoreError R.State → Result (Fault Error) (Unit {0}) × Driver R T
  stored d (ok s) = (ok tt, record d { store = s })
  stored d (err e) = (err (Fault.failed (store_err e)), d)

  -- Not every host is locked: the stale hosts are fetched from, and nothing is deployed.
  unfoldable pub abort_deploy :
      BTreeMap Hostname (StaleHost R T) → Io (Driver R T) (Fault Error) (Unit {0})
  abort_deploy stale_hosts = do
    in_progress (fetch_stale_objects R T stale_hosts)
    n ← reads (λ d. num_failed d.progress)
    fail (Fault.failed (deploy_failed ("failed to lock " <> (show_nat n <> " host(s), aborting"))))

  -- Every host is locked.
  unfoldable pub deploy_locked :
      Plan → BTreeMap Hostname T.Conn → Io (Driver R T) (Fault Error) (Unit {0})
  deploy_locked plan connections = do
    (λ d. stored d (set_ref R d.store "refs/heads/main" plan.commit set_main))
    packs ← lift_reads (λ d. attempt (build_packs R d.store plan))
    in_progress (apply_hosts connections plan packs)
    lift_reads (λ d. attempt (outcome d.progress))

  unfoldable pub run_deploy : Plan → String → Io (Driver R T) (Fault Error) (Unit {0})
  run_deploy plan operator = do
    result ← in_progress (connect_and_lock R T (expected_commits plan) operator)
    elim (ltb (length result.locked) (length plan.hosts)) [
      | true ↦ abort_deploy result.stale
      | false ↦ deploy_locked plan result.locked
    ]
