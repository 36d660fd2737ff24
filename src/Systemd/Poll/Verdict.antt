-- ===== src/Systemd/Poll/Verdict.antt =====
-- src/main.rs: what the result of the loop says of the units.
use deptool.Base.{
  ◌≡◌, refl, sym, ◌∙◌, ap, subst, String, ℕ, zero, suc, ◌≤◌, Bool, true, false, List, [], Result,
  ok, attempt-eq-ok, length, is_empty, ◌⊎◌, inl, inr, ok-injective,
}
use deptool.Protocol.{Message}
use deptool.Store.Repository.{Repository}
use deptool.FileSystem.{FileSystem, IoError}
use deptool.Io.{pure, fail, reads, lift, when, modify, ◌>>=◌}
use deptool.Io.Keeps.{bind-eq-ok}
use deptool.Systemd.Units.{UnitStatus}
use deptool.Systemd.Host.{Output, Systemd, Host, HostIo, emit, on_files}
use deptool.Systemd.Poll.{
  PendingRestart, Round, judge, read_report, stdout_or_nothing, show_args, reap, read_statuses,
  stop_waiting, is_over, after_round, poll,
}
use deptool.Systemd.Poll.Steps.{LoopState, Reaches, here, next, time, IsRound, IsOver}
use deptool.Systemd.Poll.Shown.{read_report-AreShown}
use deptool.Systemd.Poll.Judged.{AreHealthy, judge-AreHealthy, judge-AreObserved, length-judge}
use deptool.Systemd.Poll.Reaped.{
  length-reap, reap-AreReaped, is_empty-nil, is_over-IsOver, IsOver-is_over,
}

module _ {R : Repository} {F : FileSystem R} (S : Systemd F) where
  -- A run of the loop: its last round, which is reached by rounds after which the loop goes on.
  -- The units are those that failed in the last round. If there are none, the waiting is over, and
  -- every unit is healthy or the deadline has passed.
  pub record IsVerdict (touched : List String) (start : LoopState S) (units : List String)
      : Type 0 where
    pub last : LoopState S
    pub after : LoopState S
    pub reached : Reaches S touched start last
    pub waiting_units : List String
    pub statuses : List UnitStatus
    pub final : IsRound S touched last after units waiting_units statuses
    pub over : units ≡ [] → IsOver S (time S last) after waiting_units
    pub healthy :
        units ≡ []
        → AreHealthy after.restarts statuses (time S last) ⊎ (after.deadline ≤ time S last)

  emit-files :
      (b : Bool) (message : Message) (h : Host F) → (when b (emit F message) h).1.files ≡ h.files
  unfolding emit modify pure
  emit-files true message h = refl
  emit-files false message h = refl

  -- The round that the code makes from a state, given the answer of systemd.
  module _ (touched : List String) (v : LoopState S) (statuses : List UnitStatus) where
    abbrev now : ℕ
    now = time S v

    abbrev reaped_now : (List (PendingRestart S.Child) × ℕ) × F.State
    reaped_now = reap S v.restarts now v.deadline (S.sleep v.files)

    abbrev round : Round S.Child
    round = judge reaped_now.0.0 statuses now

    abbrev answer : Result IoError Output × F.State
    answer = S.run "systemctl" (show_args touched) reaped_now.1

    abbrev moved : LoopState S
    moved = record { restarts = round.restarts; deadline = reaped_now.0.1; files = answer.1 }

    made-IsRound :
        read_report touched (stdout_or_nothing answer.0) ≡ ok statuses
        → length reaped_now.0.0 ≡ length statuses
        → IsRound S touched v moved round.failed_units round.waiting_units statuses
    made-IsRound r l = record {
      reaped = reaped_now.0.0;
      files = reaped_now.1;
      waited = reap-AreReaped S v.restarts now v.deadline (S.sleep v.files);
      shown = answer.0;
      asked = refl;
      one_for_each = (read_report-AreShown touched _ statuses r).0;
      was_read = (read_report-AreShown touched _ statuses r).1;
      each = judge-AreObserved reaped_now.0.0 statuses now l;
    }

    -- The end of the round, on its two tests.
    round-IsVerdict :
        (announced : Bool) (rest : HostIo F (List String)) (h : Host F) {units : List String}
        (b c : Bool)
        → is_empty round.failed_units ≡ b
        → is_over S round now reaped_now.0.1 ≡ c
        → length reaped_now.0.0 ≡ length statuses
        → read_report touched (stdout_or_nothing answer.0) ≡ ok statuses
        → h.files ≡ answer.1
        → ((x : Host F)
            → x.files ≡ answer.1
            → (rest x).0 ≡ ok units
            → IsVerdict touched moved units)
        → (after_round S b c round announced rest h).0 ≡ ok units
        → IsVerdict touched v units
    unfolding pure stop_waiting
    round-IsVerdict announced rest h false c some_failed over l r f k e =
        subst (IsVerdict touched v) (ok-injective e) (record {
          last = v;
          after = moved;
          reached = here;
          waiting_units = round.waiting_units;
          statuses = statuses;
          final = made-IsRound r l;
          over = λ none_failed. cc (some_failed, ap is_empty none_failed);
          healthy = λ none_failed. cc (some_failed, ap is_empty none_failed);
        })
    round-IsVerdict announced rest h true true none_failed over l r f k e =
        let (_, _, _, stopped) =
          bind-eq-ok (when announced (emit F (Message.waiting_for_units []))) (λ _. pure []) h e in
        let (ended, quiet) = is_over-IsOver S round now moved refl over in
        subst (IsVerdict touched v) (ok-injective stopped) (record {
          last = v;
          after = moved;
          reached = here;
          waiting_units = round.waiting_units;
          statuses = statuses;
          final =
              subst (λ u. IsRound S touched v moved u round.waiting_units statuses)
                (is_empty-nil round.failed_units none_failed) (made-IsRound r l);
          over = λ _. (ended, quiet);
          healthy = λ _. elim quiet [
            | inl none_wait ↦
                inl (
                  judge-AreHealthy reaped_now.0.0 statuses now l none_failed
                    (ap is_empty none_wait))
            | inr late ↦ inr late
          ];
        })
    round-IsVerdict announced rest h true false none_failed over l r f k e =
        let (_, _, _, done) = bind-eq-ok (when _ (emit F _)) (λ _. rest) h e in
        let verdict = k _ (emit-files _ _ h ∙ f) done in
        record {
          last = verdict.last;
          after = verdict.after;
          reached =
              next
                (record {
                  waiting_units = round.waiting_units;
                  statuses = statuses;
                  round =
                      subst (λ u. IsRound S touched v moved u round.waiting_units statuses)
                        (is_empty-nil round.failed_units none_failed) (made-IsRound r l);
                  not_over = λ x. cc (over, IsOver-is_over S round now moved refl x);
                })
                verdict.reached;
          waiting_units = verdict.waiting_units;
          statuses = verdict.statuses;
          final = verdict.final;
          over = verdict.over;
          healthy = verdict.healthy;
        }

  read_statuses-read :
      (touched : List String) (h : Host F) {statuses : List UnitStatus}
      → (read_statuses S touched h).0 ≡ ok statuses
      → read_report touched (stdout_or_nothing (S.run "systemctl" (show_args touched) h.files).0)
        ≡ ok statuses
  unfolding read_statuses lift on_files ◌>>=◌
  read_statuses-read touched h e = attempt-eq-ok _ e

  read_statuses-files :
      (touched : List String) (h : Host F)
      → (read_statuses S touched h).1.files ≡ (S.run "systemctl" (show_args touched) h.files).1
  unfolding read_statuses lift on_files ◌>>=◌
  read_statuses-files touched h = refl

  -- For a restart for each unit, a result of the loop that waits for units is that of a run by
  -- rounds. In a round systemd is asked for the units, and the answer has a block for each, whose
  -- properties are its status. Exactly the jobs that `try_wait` says have ended are done, and each
  -- of them moves the deadline to 10 s from then. The first status of a unit after the end of its
  -- job is its baseline from then on. A unit has failed if it is broken against its baseline, and
  -- is waited for if its job runs or it is neither broken nor healthy. The run goes on while no
  -- unit has failed and the waiting is not over. It returns the units that failed in the last
  -- round; if there are none, no job is left, and each unit is healthy or the deadline has passed.
  pub poll-IsVerdict :
      (fuel : ℕ) (touched : List String) (restarts : List (PendingRestart S.Child)) (deadline : ℕ)
      (announced : Bool) (h : Host F) {units : List String}
      → length restarts ≡ length touched
      → (poll S fuel touched restarts deadline announced h).0 ≡ ok units
      → IsVerdict touched
          (record { restarts = restarts; deadline = deadline; files = h.files })
          units
  unfolding poll fail reads on_files ◌>>=◌
  poll-IsVerdict zero touched restarts deadline announced h l e = cc
  poll-IsVerdict (suc fuel) touched restarts deadline announced h {units = units} l e =
      let v : LoopState S = record { restarts = restarts; deadline = deadline; files = h.files } in
      let asked : Host F = record h { files = (reaped_now touched v []).1 } in
      let (statuses, shown, _, rest) = bind-eq-ok (read_statuses S touched) _ asked e in
      let r = read_statuses-read touched asked shown in
      let for_each = length-reap S restarts (time S v) deadline (S.sleep h.files) ∙ l in
      round-IsVerdict touched v statuses announced _ (read_statuses S touched asked).1 _ _ refl refl
        (for_each ∙ sym (read_report-AreShown touched _ statuses r).0) r
        (read_statuses-files touched asked)
        (λ x same done.
          subst (λ f. IsVerdict touched (record (moved touched v statuses) { files = f }) units)
            same (poll-IsVerdict fuel touched _ _ _ x (length-judge _ _ _ ∙ for_each) done))
        rest
