-- ===== src/Agent/Requests.antt =====
-- src/agent.rs: the requests of a session.
use deptool.Base.{String, ◌<>◌, Option, Result, ok, err, panicked}
use deptool.BTreeMap.{BTreeMap}
use deptool.Types.{Oid, PathBuf}
use deptool.Error.{ApplyError, store, display_apply_error}
use deptool.Protocol.{
  ApplyMode, Request, ping, lock, receive_pack, request_objects, apply, pong, pack_received,
  send_pack, error_pre_apply, apply_failed,
}
use deptool.Store.Repository.{Repository, GitError}
use deptool.Store.Refs.{current_commit}
use deptool.FileSystem.{FileSystem}
use deptool.Io.{pure, fail, reads, modify, try, expect, ◌>>=◌, ◌>>◌}
use deptool.Plan.Changes.{AppDiff, SystemDiff}
use deptool.Agent.Session.{
  Action, Activate, ApplyContext, SessionState, unlocked, locked, log, emit_message,
}
use deptool.Agent.Lock.{handle_lock}
use deptool.Agent.Apply.{prepare_apply, apply_modification}

module _ (R : Repository) (F : FileSystem R) where
  abbrev pre_apply_failed : String → Action R F (Unit {0})
  pre_apply_failed msg = do log R F msg; emit_message R F (error_pre_apply (store msg))

  -- `write_pack` of the decoded bytes.
  abbrev written_pack : Result GitError R.State → Action R F (Unit {0})
  written_pack (ok s) = modify (λ b. record b { store = s }) >> emit_message R F pack_received
  written_pack (err e) = pre_apply_failed ("failed to write pack: " <> e.message)

  unfoldable pub handle_receive_pack : String → Action R F (Unit {0})
  handle_receive_pack pack_data a = written_pack (R.write_pack a.store pack_data) a

  abbrev created_pack : Result GitError String → Action R F (Unit {0})
  created_pack (ok pack_data) = emit_message R F (send_pack pack_data)
  created_pack (err e) = pre_apply_failed ("failed to create pack: " <> e.message)

  unfoldable pub handle_request_objects : Option Oid → Action R F (Unit {0})
  handle_request_objects have_commit = do
    current ← reads (λ a. current_commit R a.store)
    commit ← expect current "RequestObjects implies a current commit exists"
    created ← reads (λ a. R.create_pack a.store commit have_commit)
    created_pack created

  abbrev pub report_apply : Result ApplyError (Unit {0}) → Action R F (Unit {0})
  report_apply (ok _) = pure tt
  report_apply (err e) = do
    log R F ("apply failed: " <> display_apply_error e)
    emit_message R F (apply_failed e)

  -- What follows the preparation of an apply.
  unfoldable pub apply_prepared :
      Activate R F
      → ApplyContext
      → Result ApplyError (BTreeMap String AppDiff × SystemDiff PathBuf)
      → Action R F (Unit {0})
  apply_prepared activator ctx (err e) = do
    log R F ("pre-apply failed: " <> display_apply_error e)
    emit_message R F (error_pre_apply e)
  apply_prepared activator ctx (ok (app_diffs, system)) = do
    applied ← try (apply_modification R F activator ctx app_diffs system)
    report_apply applied

  unfoldable pub handle_apply :
      Activate R F → Oid → ApplyMode → SessionState → Action R F (Unit {0})
  handle_apply activator target_commit mode unlocked =
      fail (panicked "Apply request without prior Lock")
  handle_apply activator target_commit mode (locked operator) = do
    current ← reads (λ a. current_commit R a.store)
    let ctx : ApplyContext = record {
      operator = operator;
      current_commit = current;
      target_commit = target_commit;
      mode = mode;
    }
    prepared ← try (prepare_apply R F ctx)
    apply_prepared activator ctx prepared

  unfoldable pub handle_request : Activate R F → Request → Action R F (Unit {0})
  handle_request activator ping = emit_message R F pong
  handle_request activator (lock expected_current_commit operator) =
      handle_lock R F expected_current_commit operator
  handle_request activator (receive_pack pack_data) = handle_receive_pack pack_data
  handle_request activator (request_objects have_commit) = handle_request_objects have_commit
  handle_request activator (apply target_commit mode) = do
    session ← reads (λ a. a.session)
    handle_apply activator target_commit mode session
