-- ===== src/Deploy/Messages/Outcome.antt =====
-- src/deploy.rs: what `read_apply_messages` returns, from the message that ends the apply.
use deptool.Base.{
  ◌≡◌, refl, String, true, false, Option, none, List, [], ◌∷◌, ◌++◌, map, Result, ok, err, arith,
  string_ord, is_empty, if◌then◌else◌, Option-cases, inl, inr,
}
use deptool.BTreeMap.{get, insert, contains_key}
use deptool.BTreeMap.Laws.{get-insert}
use deptool.Types.{Oid, Hostname}
use deptool.Error.{HostError, protocol_error, pre_apply, apply_failed, rollback_failed}
use deptool.Protocol.{Message}
use deptool.Agent.Final.{is_final, count_final}
use deptool.Deploy.Progress.{DeployProgress, HostState, update_progress, set_state, log_message}
use deptool.Deploy.Messages.{
  ApplyOutcome, applied, was_rolled_back, continue, apply_message, read_loop, read_apply_messages,
}

-- The outcome that a final message stands for.
abbrev pub outcome_of : Message → Result HostError ApplyOutcome
outcome_of (Message.apply_complete commit _ _ _) = ok (applied commit)
outcome_of (Message.rolled_back _) = ok was_rolled_back
outcome_of (Message.apply_failed e) = err (apply_failed e)
outcome_of (Message.rollback_failed e f) = err (rollback_failed e f)
outcome_of (Message.error_pre_apply e) = err (pre_apply e)
outcome_of _ = err (protocol_error "agent closed without ApplyComplete")

abbrev pub HasHost : Hostname → DeployProgress → Type 0
HasHost host p = contains_key host p.states ≡ true

-- The state of a host that is in the plan can be set, and the host stays.
update_progress-HasHost :
    (host : Hostname) (to : HostState) (p : DeployProgress)
    → HasHost host p
    → (q : DeployProgress) × (update_progress host to p ≡ ok q) × HasHost host q
unfolding update_progress set_state
update_progress-HasHost host to p h = elim (Option-cases (get host p.states)) [
  | inl absent ↦ cc (rw absent at h)
  | inr (old, present) ↦ (
    record p { states = insert host to p.states },
    rw present refl,
    ground (arith, get-insert host host to p.states, string_ord.beq_iff host host),
  )
]

module _ (lines : String → List String) (trim_end : String → String) (host : Hostname) where
  abbrev Continues : Message → Option Oid → DeployProgress → Type 0
  Continues m c p =
      (q : DeployProgress) × (apply_message lines trim_end host m c p ≡ ok (continue q c))
      × HasHost host q

  abbrev Ends : Message → Option Oid → DeployProgress → Type 0
  Ends m c p =
      (q : DeployProgress) × (read_loop lines trim_end host (ok m ∷ []) c p ≡ ok (outcome_of m, q))

  apply_message-Continues :
      (m : Message) (c : Option Oid) (p : DeployProgress)
      → is_final m ≡ false
      → HasHost host p
      → Continues m c p
  unfolding apply_message log_message
  apply_message-Continues Message.pong c p f h = (p, refl, h)
  apply_message-Continues Message.locked c p f h = (p, refl, h)
  apply_message-Continues Message.pack_received c p f h = (p, refl, h)
  apply_message-Continues (Message.lock_stale _ _) c p f h = (p, refl, h)
  apply_message-Continues (Message.lock_busy _) c p f h = (p, refl, h)
  apply_message-Continues (Message.lock_hostname_changed _) c p f h = (p, refl, h)
  apply_message-Continues (Message.waiting_for_units units) c p f h =
      let (q, e, i) =
        update_progress-HasHost host
          (if is_empty units then HostState.applying else HostState.waiting_for_units units) p h in
      (q, rw e refl, i)
  apply_message-Continues (Message.systemd_unit_status _) c p f h = (_, refl, h)
  apply_message-Continues (Message.networkd_output _) c p f h = (_, refl, h)
  apply_message-Continues (Message.sysusers_output _) c p f h = (_, refl, h)
  apply_message-Continues (Message.apply_complete _ _ _ _) c p f h = cc
  apply_message-Continues (Message.send_pack _) c p f h = (p, refl, h)
  apply_message-Continues Message.rolling_back c p f h =
      let (q, e, i) = update_progress-HasHost host HostState.rolling_back p h in (q, rw e refl, i)
  apply_message-Continues (Message.rolled_back _) c p f h = cc
  apply_message-Continues (Message.apply_failed _) c p f h = cc
  apply_message-Continues (Message.rollback_failed _ _) c p f h = cc
  apply_message-Continues (Message.error_pre_apply _) c p f h = cc

  read_loop-Ends :
      (m : Message) (c : Option Oid) (p : DeployProgress)
      → is_final m ≡ true
      → HasHost host p
      → Ends m c p
  unfolding read_loop apply_message
  read_loop-Ends (Message.apply_complete _ _ _ _) c p f h = (p, refl)
  read_loop-Ends (Message.rolled_back error) c p f h =
      let (q, e, i) = update_progress-HasHost host (HostState.rolled_back error) p h in
      (q, rw e refl)
  read_loop-Ends (Message.apply_failed _) c p f h = (p, refl)
  read_loop-Ends (Message.rollback_failed _ _) c p f h = (p, refl)
  read_loop-Ends (Message.error_pre_apply _) c p f h = (p, refl)
  read_loop-Ends _ c p f h = cc

  read_loop_lem :
      (ms : List Message) (m : Message) (c : Option Oid) (p : DeployProgress)
      → count_final ms ≡ 0
      → is_final m ≡ true
      → HasHost host p
      → (q : DeployProgress) × (read_loop lines trim_end host (map ok (ms ++ (m ∷ []))) c p
          ≡ ok (outcome_of m, q))
  unfolding read_loop
  read_loop_lem [] m c p none_final f h = read_loop-Ends m c p f h
  read_loop_lem (x ∷ ms) m c p none_final f h =
      let (q, e, i) = apply_message-Continues x c p (ground arith) h in
      let (q', e') = read_loop_lem ms m c q (ground arith) f i in (q', rw e e')

  -- For a host in the plan, if the agent sends messages that are not final and then one final
  -- message, `read_apply_messages` returns the outcome that the final message stands for.
  pub read_apply_messages-outcome :
      (ms : List Message) (m : Message) (p : DeployProgress)
      → count_final ms ≡ 0
      → is_final m ≡ true
      → HasHost host p
      → (q : DeployProgress) × (read_apply_messages lines trim_end host (map ok (ms ++ (m ∷ []))) p
          ≡ ok (outcome_of m, q))
  unfolding read_apply_messages
  read_apply_messages-outcome ms m p none_final f h = read_loop_lem ms m none p none_final f h
