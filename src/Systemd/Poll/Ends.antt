-- ===== src/Systemd/Poll/Ends.antt =====
-- src/main.rs: the loop ends. Once every restart job has ended, the deadline stands, and a round
-- takes 100 ms.
use deptool.Base.{
  ◌≡◌, refl, ap, String, ℕ, zero, suc, ◌+◌, ◌*◌, ◌≤◌, ◌<◌, Bool, true, false, ◌&&◌, List, [], ◌∷◌,
  Result, ok, err, Fault, failed, panicked, attempt, arith, is_empty, all, Bool-cases, inl, inr,
}
use deptool.Error.{ApplyError}
use deptool.Store.Repository.{Repository}
use deptool.FileSystem.{FileSystem}
use deptool.Io.{pure, reads, lift, modify, continue, ◌>>=◌}
use deptool.Systemd.Units.{UnitStatus}
use deptool.Systemd.Host.{Systemd, Host, HostIo, emit, on_files}
use deptool.Systemd.Poll.{
  RestartState, PendingRestart, Judgement, good, waiting, bad, Round, with_baseline, note_unit,
  judge, reap_one, reap, read_statuses, stop_waiting, is_over, after_round, poll, is_restarted,
}

-- The code returned, with a value or with an error of its own.
abbrev pub HasEnded : {A : Type 0} → Result (Fault ApplyError) A → Type 0
HasEnded (ok _) = Unit {0}
HasEnded (err (failed _)) = Unit {0}
HasEnded (err (panicked _)) = ⊥

attempt-HasEnded : {A : Type 0} (r : Result ApplyError A) → HasEnded (attempt r)
attempt-HasEnded (ok a) = tt
attempt-HasEnded (err e) = tt

and-left : (a b : Bool) → (a && b) ≡ true → a ≡ true
and-left true b h = refl
and-left false b h = cc

and-right : (a b : Bool) → (a && b) ≡ true → b ≡ true
and-right true b h = h
and-right false b h = cc

module _ {Child : Type 0} where
  with_baseline-restarted :
      (p : PendingRestart Child) (status : UnitStatus)
      → is_restarted p ≡ true
      → is_restarted (record p { state = with_baseline status p.state }) ≡ true
  unfolding with_baseline
  with_baseline-restarted p status h = ground arith

  noted-restarted :
      (p : PendingRestart Child) (state : RestartState Child) (j : Judgement) (round : Round Child)
      → is_restarted (record p { state = state }) ≡ true
      → all is_restarted round.restarts ≡ true
      → all is_restarted (note_unit p state j round).restarts ≡ true
  noted-restarted p state good round h k = rw (h, k) refl
  noted-restarted p state waiting round h k = rw (h, k) refl
  noted-restarted p state bad round h k = rw (h, k) refl

  -- A round never takes a restart back to its job.
  judge-restarted :
      (ps : List (PendingRestart Child)) (statuses : List UnitStatus) (now : ℕ)
      → all is_restarted ps ≡ true
      → all is_restarted (judge ps statuses now).restarts ≡ true
  unfolding judge
  judge-restarted [] statuses now h = refl
  judge-restarted (p ∷ ps) [] now h = h
  judge-restarted (p ∷ ps) (status ∷ statuses) now h =
      noted-restarted p _ _ (judge ps statuses now)
        (with_baseline-restarted p status (and-left (is_restarted p) _ h))
        (judge-restarted ps statuses now (and-right (is_restarted p) _ h))

module _ {R : Repository} {F : FileSystem R} (S : Systemd F) where
  reap_one-restarted :
      (p : PendingRestart S.Child) (now deadline : ℕ) (files : F.State)
      → is_restarted p ≡ true
      → reap_one S p now deadline files ≡ ((p, deadline), files)
  unfolding reap_one
  reap_one-restarted p now deadline files h = ground arith

  reap-restarted :
      (ps : List (PendingRestart S.Child)) (now deadline : ℕ) (files : F.State)
      → all is_restarted ps ≡ true
      → reap S ps now deadline files ≡ ((ps, deadline), files)
  unfolding reap
  reap-restarted [] now deadline files h = refl
  reap-restarted (p ∷ ps) now deadline files h =
      rw (reap_one-restarted p now deadline files (and-left (is_restarted p) _ h))
        (rw (reap-restarted ps now deadline files (and-right (is_restarted p) _ h)) refl)

  -- The clock shows at least 100 ms more after a sleep, and does not run backwards.
  pub record ClockLaws : Type 0 where
    pub slept :
        (files : F.State) → S.monotonic_now files + 100000000 ≤ S.monotonic_now (S.sleep files)
    pub ran :
        (program : String) (args : List String) (files : F.State)
        → S.monotonic_now files ≤ S.monotonic_now (S.run program args files).1

  continue-HasEnded :
      {A B : Type 0} (r : Result (Fault ApplyError) A) (h : Host F) (next : A → HostIo F B)
      → HasEnded r
      → ((x : A) → HasEnded (next x h).0)
      → HasEnded (continue (r, h) next).0
  continue-HasEnded (ok x) h next e k = k x
  continue-HasEnded (err (failed x)) h next e k = tt
  continue-HasEnded (err (panicked m)) h next e k = e

  stop_waiting-HasEnded : (announced : Bool) (h : Host F) → HasEnded (stop_waiting S announced h).0
  unfolding stop_waiting pure modify emit ◌>>=◌
  stop_waiting-HasEnded true h = tt
  stop_waiting-HasEnded false h = tt

  -- The end of a round: if the waiting is not over, the clock is short of the deadline.
  after_round-HasEnded :
      (b c : Bool) (ps : List (PendingRestart S.Child)) (statuses : List UnitStatus)
      (now deadline : ℕ) (announced : Bool) (next : HostIo F (List String)) (h : Host F)
      → is_over S (judge ps statuses now) now deadline ≡ c
      → all is_restarted (judge ps statuses now).restarts ≡ true
      → (now < deadline → (x : Host F) → x.files ≡ h.files → HasEnded (next x).0)
      → HasEnded (after_round S b c (judge ps statuses now) announced next h).0
  unfolding pure modify emit ◌>>=◌
  after_round-HasEnded false c ps statuses now deadline announced next h over r k = tt
  after_round-HasEnded true true ps statuses now deadline announced next h over r k =
      stop_waiting-HasEnded announced h
  after_round-HasEnded true false ps statuses now deadline announced next h over r k =
      elim (Bool-cases (is_empty (judge ps statuses now).waiting_units)) [
        | inl e ↦ ground (arith)
        | inr e ↦ rw e (k (ground arith) _ refl)
      ]

  module _ (clock : ClockLaws) where
    read_statuses-ended :
        (touched : List String) (h : Host F)
        → HasEnded (read_statuses S touched h).0
          × (S.monotonic_now h.files ≤ S.monotonic_now (read_statuses S touched h).1.files)
    unfolding read_statuses on_files lift ◌>>=◌
    read_statuses-ended touched h = (attempt-HasEnded _, clock.ran _ _ h.files)

    -- Once every restart job has ended, the loop that waits for units ends, with a result or an
    -- error of its own, within one round for each 100 ms up to the deadline and one more, where a
    -- sleep moves the clock on by 100 ms and the clock does not run backwards.
    pub poll-HasEnded :
        (fuel : ℕ) (touched : List String) (restarts : List (PendingRestart S.Child)) (deadline : ℕ)
        (announced : Bool) (h : Host F)
        → all is_restarted restarts ≡ true
        → deadline ≤ S.monotonic_now h.files + fuel * 100000000
        → HasEnded (poll S (suc fuel) touched restarts deadline announced h).0
    unfolding poll on_files reads ◌>>=◌
    poll-HasEnded zero touched restarts deadline announced h r enough =
        let files = S.sleep h.files in
        let woken : Host F = record h { files = files } in
        rw (reap-restarted restarts (S.monotonic_now files) deadline files r) (
          continue-HasEnded (read_statuses S touched woken).0 (read_statuses S touched woken).1 _
            (read_statuses-ended touched woken).0
            λ statuses.
              after_round-HasEnded _ _ restarts statuses (S.monotonic_now files) deadline announced
                _ _ refl (judge-restarted restarts statuses _ r)
                λ early x same. absurd (omega (arith, clock.slept h.files)))
    poll-HasEnded (suc fuel) touched restarts deadline announced h r enough =
        let files = S.sleep h.files in
        let woken : Host F = record h { files = files } in
        rw (reap-restarted restarts (S.monotonic_now files) deadline files r) (
          continue-HasEnded (read_statuses S touched woken).0 (read_statuses S touched woken).1 _
            (read_statuses-ended touched woken).0
            λ statuses.
              after_round-HasEnded _ _ restarts statuses (S.monotonic_now files) deadline announced
                _ _ refl (judge-restarted restarts statuses _ r)
                λ early x same.
                  poll-HasEnded fuel touched
                    (judge restarts statuses (S.monotonic_now files)).restarts deadline _ x
                    (judge-restarted restarts statuses _ r)
                    (omega (
                      arith,
                      clock.slept h.files,
                      (read_statuses-ended touched woken).1,
                      ap (λ (s : F.State). S.monotonic_now s) same,
                    )))
