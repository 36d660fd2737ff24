-- ===== src/Agent/Lock/Answers.antt =====
-- src/agent.rs: what a lock request is answered, and when the lock is granted.
use deptool.Base.{
  ◌≡◌, refl, ap, String, Bool, true, false, Option, none, some, [], ◌∷◌, ◌++◌, ◌⊎◌, inl, inr,
  Result, ok, err, Fault, Result-cases, Option-cases, arith, if◌then◌else◌,
}
use deptool.Types.{Oid, PathBuf}
use deptool.Error.{ApplyError, StoreError}
use deptool.Protocol.{Message, lock_stale}
use deptool.Store.Repository.{Repository, Tree, get_name}
use deptool.Store.Refs.{current_commit, get_deployed_hostname, get_commit_tree}
use deptool.FileSystem.{FileSystem, IoError}
use deptool.Io.{pure, fail, reads, lift_reads, modify, continue, ◌>>=◌}
use deptool.Agent.Session.{
  AgentSession, SessionState, log, emit_message, disabled, pending, active, LogState,
}
use deptool.Agent.Lock.{
  same_commit, check_deployed_hostname, drop_lock, open_log, grant_lock, refuse_lock, answer_lock,
  finish_lock, claim_lock_file, after_flock, handle_lock, open_pending, opened_log, own_entry,
  deployed_hostname,
}

-- Whether the message says that the lock is granted.
abbrev pub is_locked : Message → Bool
is_locked Message.locked = true
is_locked _ = false

module _ (R : Repository) (F : FileSystem R) where
  -- The lock is granted for what the host has deployed, or it is refused and the session is as it was.
  abbrev pub IsLockAnswer : Option Oid → String → AgentSession R F → AgentSession R F → Type 0
  IsLockAnswer expected operator a b =
      ((b.session ≡ SessionState.locked operator)
        × (b.emitted ≡ a.emitted ++ (Message.locked ∷ []))
        × (same_commit (current_commit R a.store) expected ≡ true)
        × (check_deployed_hostname R F a.store a.hostname (current_commit R a.store) ≡ ok none))
      ⊎ ((b.session ≡ a.session)
          × (m : Message) × (is_locked m ≡ false)
          × (b.emitted ≡ a.emitted ++ (m ∷ [])))

  opened_log-emitted :
      (path : PathBuf) (a : AgentSession R F) (p : Result IoError (Unit {0}) × F.State)
      → (opened_log R F path a p).emitted ≡ a.emitted
  opened_log-emitted path a (ok _, files) = refl
  opened_log-emitted path a (err _, files) = refl

  open_pending-emitted :
      (l : LogState) (a : AgentSession R F) → (open_pending R F l a).emitted ≡ a.emitted
  open_pending-emitted disabled a = refl
  open_pending-emitted (active path) a = refl
  open_pending-emitted (pending path) a = opened_log-emitted path a (F.open_log path a.files)

  refuse_lock-IsLockAnswer :
      (expected : Option Oid) (operator : String) (a : AgentSession R F) (m : Message)
      → is_locked m ≡ false
      → IsLockAnswer expected operator a (refuse_lock R F m a).1
  unfolding refuse_lock drop_lock emit_message modify ◌>>=◌
  refuse_lock-IsLockAnswer expected operator a m e = inr (refl, m, e, refl)

  grant_lock-IsLockAnswer :
      (expected : Option Oid) (operator : String) (a : AgentSession R F)
      → same_commit (current_commit R a.store) expected ≡ true
      → check_deployed_hostname R F a.store a.hostname (current_commit R a.store) ≡ ok none
      → IsLockAnswer expected operator a (grant_lock R F operator a).1
  unfolding grant_lock open_log log emit_message modify ◌>>=◌
  grant_lock-IsLockAnswer expected operator a e c =
      inl (refl, ap (λ ms. ms ++ (Message.locked ∷ [])) (open_pending-emitted a.log_state a), e, c)

  own_entry_refuses :
      (host : String) (t : Result StoreError Tree) (m : Message)
      → own_entry R F host t ≡ ok (some m)
      → is_locked m ≡ false
  own_entry_refuses host (err _) m e = cc
  own_entry_refuses host (ok t) m e = elim (Option-cases (get_name t host)) [
    | inl absent ↦ cc (rw (absent, own_entry) at e)
    | inr (entry, present) ↦ cc (rw (present, own_entry) at e)
  ]

  refuses :
      (s : R.State) (host : String) (commit : Oid) (r : Result StoreError (Option String))
      (m : Message)
      → deployed_hostname R F s host commit r ≡ ok (some m)
      → is_locked m ≡ false
  refuses s host commit (err _) m e = cc
  refuses s host commit (ok none) m e = own_entry_refuses host (get_commit_tree R s commit) m e
  refuses s host commit (ok (some name)) m e = ground arith

  check_refuses :
      (s : R.State) (host : String) (current : Option Oid) (m : Message)
      → check_deployed_hostname R F s host current ≡ ok (some m)
      → is_locked m ≡ false
  unfolding check_deployed_hostname
  check_refuses s host none m e = cc
  check_refuses s host (some commit) m e = refuses s host commit (get_deployed_hostname R s) m e

  compared :
      (expected : Option Oid) (operator : String) (a : AgentSession R F)
      → check_deployed_hostname R F a.store a.hostname (current_commit R a.store) ≡ ok none
      → (same : Bool) → same_commit (current_commit R a.store) expected ≡ same
      → IsLockAnswer expected operator a
          ((if same
              then grant_lock R F operator
              else refuse_lock R F (lock_stale expected (current_commit R a.store)))
            a).1
  compared expected operator a c true e = grant_lock-IsLockAnswer expected operator a e c
  compared expected operator a c false e = refuse_lock-IsLockAnswer expected operator a _ refl

  answer_lock-IsLockAnswer :
      (expected : Option Oid) (operator : String) (a : AgentSession R F)
      (r : Result (Fault ApplyError) (Option Message))
      → check_deployed_hostname R F a.store a.hostname (current_commit R a.store) ≡ r
      → (continue (r, a) (λ m. answer_lock R F m (current_commit R a.store) expected operator)).0
        ≡ ok tt
      → IsLockAnswer expected operator a
          (continue (r, a) (λ m. answer_lock R F m (current_commit R a.store) expected operator)).1
  answer_lock-IsLockAnswer expected operator a (err f) c done = cc
  answer_lock-IsLockAnswer expected operator a (ok (some m)) c done =
      refuse_lock-IsLockAnswer expected operator a m
        (check_refuses a.store a.hostname (current_commit R a.store) m c)
  answer_lock-IsLockAnswer expected operator a (ok none) c done =
      compared expected operator a c _ refl

  finish_lock-IsLockAnswer :
      (expected : Option Oid) (operator : String) (a : AgentSession R F)
      → (finish_lock R F expected operator a).0 ≡ ok tt
      → IsLockAnswer expected operator a (finish_lock R F expected operator a).1
  unfolding finish_lock reads lift_reads ◌>>=◌
  finish_lock-IsLockAnswer expected operator a done =
      answer_lock-IsLockAnswer expected operator a _ refl done

  -- The lock file is written, and nothing else of the session changes.
  claimed :
      (expected : Option Oid) (operator : String) (a : AgentSession R F)
      → (after_flock R F expected operator (ok true) a).0 ≡ ok tt
      → IsLockAnswer expected operator a (after_flock R F expected operator (ok true) a).1
  unfolding after_flock claim_lock_file pure fail modify ◌>>=◌
  claimed expected operator a done =
      let p = F.truncate_lock_file a.lock_path a.files in
      let q = F.rewind_lock_file a.lock_path p.1 in
      elim (Result-cases p.0) [
        | inr (_, e) ↦ cc (rw e at done)
        | inl (_, e) ↦ elim (Result-cases q.0) [
          | inr (_, e') ↦ cc (rw (e, e') at done)
          | inl (_, e') ↦
              let b : AgentSession R F = record a {
                files = F.write_lock_file a.lock_path operator q.1;
              } in
              rw (e, e') (finish_lock-IsLockAnswer expected operator b (rw (e, e') at done))
        ]
      ]

  after_flock-IsLockAnswer :
      (expected : Option Oid) (operator : String) (r : Result IoError Bool) (a : AgentSession R F)
      → (after_flock R F expected operator r a).0 ≡ ok tt
      → IsLockAnswer expected operator a (after_flock R F expected operator r a).1
  unfolding after_flock emit_message reads modify ◌>>=◌
  after_flock-IsLockAnswer expected operator (err e) a done = inr (refl, _, refl, refl)
  after_flock-IsLockAnswer expected operator (ok false) a done = inr (refl, _, refl, refl)
  after_flock-IsLockAnswer expected operator (ok true) a done = claimed expected operator a done

  -- A lock request that does not panic adds one message to what the session emits. Either it is
  -- the grant, the session is locked for the operator, the current commit is the expected one, and
  -- the check of the deployed hostname has no objection; or it is another message, and the session
  -- is locked or not as it was.
  pub handle_lock-IsLockAnswer :
      (expected : Option Oid) (operator : String) (a : AgentSession R F)
      → (handle_lock R F expected operator a).0 ≡ ok tt
      → IsLockAnswer expected operator a (handle_lock R F expected operator a).1
  unfolding handle_lock emit_message reads modify ◌>>=◌
  handle_lock-IsLockAnswer expected operator a done =
      let p = F.open_lock_file a.lock_path a.files in
      let q = F.try_flock_exclusive a.lock_path p.1 in
      elim (Result-cases p.0) [
        | inr (_, e) ↦ rw e (inr (refl, _, refl, refl))
        | inl (_, e) ↦ rw e (
            after_flock-IsLockAnswer expected operator q.0 (record a { files = q.1 })
              (rw e at done))
      ]
