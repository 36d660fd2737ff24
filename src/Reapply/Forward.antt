-- ===== src/Reapply/Forward.antt =====
-- src/reapply.rs: the branch that the source marks as unreachable, an agent that rolls back a reapply.
use deptool.Base.{
  ◌≡◌, ◌≢◌, ◌∙◌, ap, subst, String, false, Option, none, some, List, [], ◌∷◌, map, Result, ok, err,
  Fault, arith, is_empty, if◌then◌else◌, >>=-eq-ok, Result-cases, inl, inr, ok-injective,
}
use deptool.Types.{Oid, Hostname, PathBuf}
use deptool.Error.{HostError}
use deptool.Protocol.{ApplyMode, Message, apply, reapply}
use deptool.Store.Repository.{Repository}
use deptool.FileSystem.{FileSystem}
use deptool.Io.{pure, fail, ◌>>=◌, continue as proceed}
use deptool.Plan.Changes.{SystemDiff}
use deptool.Agent.Session.{AgentSession, Activate, DesiredState}
use deptool.Agent.Requests.{handle_request}
use deptool.Agent.Forward.{is_rollback, count_rollback, reapply-forward}
use deptool.Deploy.Progress.{DeployProgress, update_progress, applying, waiting_for_units}
use deptool.Deploy.Connection.{Transport, Driver}
use deptool.Deploy.Messages.{
  ApplyOutcome, was_rolled_back, Step, continue, return, apply_message, at_end, read_loop,
  read_apply_messages,
}
use deptool.Deploy.Run.{read_outcome, read_progress, unwrapped}

module _ (lines : String → List String) (trim_end : String → String) (host : Hostname) where
  -- What one message does is no rollback.
  abbrev IsForward : Result (Fault HostError) (Step lines trim_end) → Type 0
  IsForward (err e) = Unit {0}
  IsForward (ok (continue p c)) = Unit {0}
  IsForward (ok (return r p)) = r ≢ ok was_rolled_back

  apply_message-IsForward :
      (m : Message) (c : Option Oid) (p : DeployProgress)
      → is_rollback m ≡ false
      → IsForward (apply_message lines trim_end host m c p)
  unfolding apply_message
  apply_message-IsForward (Message.apply_complete _ _ _ _) c p f = tt
  apply_message-IsForward Message.rolling_back c p f = cc
  apply_message-IsForward (Message.rolled_back error) c p f = cc
  apply_message-IsForward (Message.rollback_failed _ _) c p f = cc
  apply_message-IsForward (Message.waiting_for_units units) c p f =
      elim (Result-cases
        (update_progress host (if is_empty units then applying else waiting_for_units units) p)) [
          | inl (q, e) ↦ rw e tt
          | inr (x, e) ↦ rw e tt
        ]
  apply_message-IsForward (Message.apply_failed _) c p f = λ e. cc
  apply_message-IsForward (Message.error_pre_apply _) c p f = λ e. cc
  apply_message-IsForward _ c p f = tt

  step_cases :
      (ms : List Message) (step : Step lines trim_end) (q : DeployProgress)
      → IsForward (ok step)
      → ((c : Option Oid) (p : DeployProgress)
          → read_loop lines trim_end host (map ok ms) c p ≢ ok (ok was_rolled_back, q))
      → (elim step [
        | continue p' commit ↦ read_loop lines trim_end host (map ok ms) commit p'
        | return r p' ↦ ok (r, p')
      ])
        ≢ ok (ok was_rolled_back, q)
  step_cases ms (continue p c) q f rest = rest c p
  step_cases ms (return r p) q f rest = λ e. f (ap (λ x. x.0) (ok-injective e))

  at_end-forward : (c : Option Oid) → at_end lines trim_end c ≢ ok was_rolled_back
  at_end-forward none = λ e. cc
  at_end-forward (some oid) = λ e. cc

  read_loop-forward :
      (ms : List Message)
      → count_rollback ms ≡ 0
      → (c : Option Oid) (p q : DeployProgress)
      → read_loop lines trim_end host (map ok ms) c p ≢ ok (ok was_rolled_back, q)
  unfolding read_loop
  read_loop-forward [] f c p q e = at_end-forward c (ap (λ x. x.0) (ok-injective e))
  read_loop-forward (m ∷ ms) f c p q e =
      let (step, done, rest) = >>=-eq-ok (apply_message lines trim_end host m c p) _ e in
      step_cases ms step q (subst IsForward done (apply_message-IsForward m c p (ground arith)))
        (λ c' p'. read_loop-forward ms (ground arith) c' p' q) rest

module _ (R : Repository) (T : Transport) (lines : String → List String)
    (trim_end : String → String) where
  after_read :
      (r : Result (Fault HostError) (Result HostError ApplyOutcome × DeployProgress))
      (d : Driver R T)
      → ((q : DeployProgress) → r ≢ ok (ok was_rolled_back, q))
      → (proceed (read_progress R T lines trim_end d r) (unwrapped R T lines trim_end)).0
        ≢ ok was_rolled_back
  unfolding pure fail
  after_read (err e) d h = λ x. cc
  after_read (ok (ok o, p)) d h =
      λ x. h p (ap (λ (y : ApplyOutcome). ok (ok y, p)) (ok-injective x))
  after_read (ok (err e, p)) d h = λ x. cc

  read_outcome-forward :
      (host : Hostname) (conn : T.Conn) (ms : List Message) (d : Driver R T)
      → T.rest conn ≡ map ok ms
      → count_rollback ms ≡ 0
      → (read_outcome R T lines trim_end host conn d).0 ≢ ok was_rolled_back
  unfolding read_outcome read_apply_messages ◌>>=◌
  read_outcome-forward host conn ms d sent f = rw sent (
      after_read (read_loop lines trim_end host (map ok ms) none d.progress) d
        (read_loop-forward lines trim_end host ms f none d.progress))

  module _ (F : FileSystem R) (activator : Activate R F)
      (forward : (mode : ApplyMode) (desired : DesiredState) (changes : SystemDiff PathBuf)
          (files : F.State)
        → count_rollback (activator mode desired changes files).messages ≡ 0) where
    -- Where activation emits no message of a rollback, the driver that reads what an agent emits
    -- on a reapply request never has a rollback as the outcome. The request may succeed, fail or
    -- panic.
    pub reapply-not_rolled_back :
        (host : Hostname) (conn : T.Conn) (target : Oid) (a : AgentSession R F) (d : Driver R T)
        → a.emitted ≡ []
        → T.rest conn ≡ map ok (handle_request R F activator (apply target reapply) a).1.emitted
        → (read_outcome R T lines trim_end host conn d).0 ≢ ok was_rolled_back
    reapply-not_rolled_back host conn target a d fresh sent =
        read_outcome-forward host conn _ d sent
          (reapply-forward R F activator forward target a ∙ ap count_rollback fresh)
