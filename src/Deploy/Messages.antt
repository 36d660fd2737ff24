-- ===== src/Deploy/Messages.antt =====
-- src/deploy.rs: what the driver makes of the messages of an apply. `trim_end` and `lines` of the
-- standard library are parameters, since they only shape what the observer is shown.
pub mod Outcome
use Prim.Native.Char.{code}
use text.Mathlib.Text.{starts_with}
use deptool.Base.{
  String, ◌<>◌, ℕ, Bool, true, false, not, ◌||◌, ◌&&◌, Option, none, some, List, [], ◌∷◌, Result,
  ok, err, Fault, attempt, is_empty, any, filter, nat_eq, if◌then◌else◌, ◌>>=◌,
}
use deptool.Types.{Oid, Hostname, join_texts}
use deptool.Error.{HostError, protocol_error, pre_apply, apply_failed, rollback_failed}
use deptool.Protocol.{Message}
use deptool.Deploy.Progress.{
  DeployProgress, HostState, rolling_back, applying, waiting_for_units, rolled_back,
  update_progress, log_message,
}

pub data ApplyOutcome : Type 0 where
  applied : Oid → ApplyOutcome
  was_rolled_back : ApplyOutcome

abbrev drop_prefixes : List String
drop_prefixes =
    " Invocation:" ∷ "TriggeredBy:" ∷ "   Duration:" ∷ "      Tasks:" ∷ "     Memory:"
    ∷ "   Mem peak:" ∷ "        CPU:" ∷ "     CGroup:" ∷ "    Drop-In:" ∷ []

-- `line.contains('├') || line.contains('└')`
has_branch : String → Bool
has_branch String.[] = false
has_branch (String.◌∷◌ c s) = nat_eq (code c) 9500 || nat_eq (code c) 9492 || has_branch s

pub is_kept : String → Bool
unfolding has_branch
is_kept line = if has_branch line then false else not (any (λ p. starts_with line p) drop_prefixes)

module _ (lines : String → List String) (trim_end : String → String) where
  unfoldable pub filter_systemd_status : String → String
  unfolding is_kept join_texts
  filter_systemd_status output = join_texts "\n" (filter is_kept (lines output))

  -- What one message does: the loop goes on with the progress and the commit, or it returns.
  pub data Step : Type 0 where
    continue : DeployProgress → Option Oid → Step
    return : Result HostError ApplyOutcome → DeployProgress → Step

  abbrev continued :
      Option Oid → Result (Fault HostError) DeployProgress → Result (Fault HostError) Step
  continued commit (ok p) = ok (continue p commit)
  continued commit (err e) = err e

  abbrev returned :
      Result HostError ApplyOutcome
      → Result (Fault HostError) DeployProgress
      → Result (Fault HostError) Step
  returned r (ok p) = ok (return r p)
  returned r (err e) = err e

  unfoldable pub apply_message :
      Hostname → Message → Option Oid → DeployProgress → Result (Fault HostError) Step
  apply_message host (Message.apply_complete commit _ _ _) applied_commit p =
      ok (continue p (some commit))
  apply_message host Message.rolling_back applied_commit p =
      continued applied_commit (update_progress host rolling_back p)
  apply_message host (Message.waiting_for_units units) applied_commit p =
      continued applied_commit
        (update_progress host (if is_empty units then applying else waiting_for_units units) p)
  apply_message host (Message.rolled_back error) applied_commit p =
      returned (ok was_rolled_back) (update_progress host (rolled_back error) p)
  apply_message host (Message.apply_failed apply_error) applied_commit p =
      ok (return (err (apply_failed apply_error)) p)
  apply_message host (Message.rollback_failed apply_error rollback_error) applied_commit p =
      ok (return (err (rollback_failed apply_error rollback_error)) p)
  apply_message host (Message.systemd_unit_status output) applied_commit p =
      ok (continue (log_message host (filter_systemd_status (trim_end output)) p) applied_commit)
  apply_message host (Message.networkd_output output) applied_commit p =
      ok (continue (log_message host (trim_end output) p) applied_commit)
  apply_message host (Message.sysusers_output output) applied_commit p =
      ok (continue (log_message host (trim_end output) p) applied_commit)
  apply_message host (Message.error_pre_apply apply_err) applied_commit p =
      ok (return (err (pre_apply apply_err)) p)
  apply_message host _ applied_commit p = ok (continue p applied_commit)

  abbrev pub at_end : Option Oid → Result HostError ApplyOutcome
  at_end (some oid) = ok (applied oid)
  at_end none = err (protocol_error "agent closed without ApplyComplete")

  -- The loop over what the agent sends until it closes the stream. Nothing is sent to the agent in
  -- the loop, so the messages, and the failures to read one, are a list.
  unfoldable pub read_loop :
      Hostname
      → List (Result HostError Message)
      → Option Oid
      → DeployProgress
      → Result (Fault HostError) (Result HostError ApplyOutcome × DeployProgress)
  read_loop host [] applied_commit p = ok (at_end applied_commit, p)
  read_loop host (err e ∷ messages) applied_commit p = ok (err e, p)
  read_loop host (ok message ∷ messages) applied_commit p = do
    step ← apply_message host message applied_commit p
    elim step [ continue p' commit ↦ read_loop host messages commit p' | return r p' ↦ ok (r, p') ]

  unfoldable pub read_apply_messages :
      Hostname
      → List (Result HostError Message)
      → DeployProgress
      → Result (Fault HostError) (Result HostError ApplyOutcome × DeployProgress)
  read_apply_messages host messages p = read_loop host messages none p
