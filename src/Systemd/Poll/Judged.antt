-- ===== src/Systemd/Poll/Judged.antt =====
-- src/main.rs: what a round of the loop says of the units.
use deptool.Base.{
  ◌≡◌, refl, ◌∙◌, ap, ℕ, suc, ◌+◌, ◌≤◌, Bool, true, false, List, [], ◌∷◌, arith, length, is_empty,
  ◌⊎◌, inl, inr, Bool-cases, ltb, ◌==◌, string_ord,
}
use deptool.Systemd.Units.{
  UnitStatus, Activation, running, starting, activation, settled, settle_window,
}
use deptool.Systemd.Poll.Steps.{
  IsHealthy, IsBroken, HasBaseline, still_running, first_status, later_status, IsJudged, broken,
  healthy, undecided, AreObserved, none_left, observed,
}
use deptool.Systemd.Poll.{
  RestartState, job, job_done, settling, PendingRestart, Judgement, good, waiting, bad, Round,
  with_baseline, judge_activation, judge_unit, note_unit, judge,
}

good-result :
    (status baseline : UnitStatus) (now : ℕ)
    → judge_activation (activation status baseline) (settled status now) ≡ good
    → (status.result ≡ "") ⊎ (status.result ≡ "success")
unfolding activation
good-result status baseline now h = elim (Bool-cases (status.result == "")) [
  | inl e ↦ inl ((string_ord.beq_iff _ _).0 e)
  | inr e ↦ elim (Bool-cases (status.result == "success")) [
    | inl f ↦ inr ((string_ord.beq_iff _ _).0 f)
    | inr f ↦ ground arith
  ]
]

good-up :
    (status baseline : UnitStatus) (now : ℕ)
    → judge_activation (activation status baseline) (settled status now) ≡ good
    → (status.active_state ≡ "inactive")
      ⊎ ((status.active_state ≡ "active") × (status.active_enter_monotonic + settle_window ≤ now))
unfolding activation settled
good-up status baseline now h = elim (Bool-cases (status.active_state == "inactive")) [
  | inl e ↦ inl ((string_ord.beq_iff _ _).0 e)
  | inr e ↦ elim (Bool-cases (status.active_state == "active")) [
    | inl f ↦ inr ((string_ord.beq_iff _ _).0 f, ground arith)
    | inr f ↦ ground arith
  ]
]

good-IsHealthy :
    (status baseline : UnitStatus) (now : ℕ)
    → judge_activation (activation status baseline) (settled status now) ≡ good
    → IsHealthy status baseline now
unfolding activation settled
good-IsHealthy status baseline now h = record {
  loaded = ground (arith, string_ord.beq_iff status.load_state "loaded");
  succeeded = good-result status baseline now h;
  stable = ground arith;
  up = good-up status baseline now h;
}

failed-IsBroken :
    (status baseline : UnitStatus)
    → activation status baseline ≡ Activation.failed
    → IsBroken status baseline
unfolding activation
failed-IsBroken status baseline h = elim (Bool-cases (status.load_state == "loaded")) [
  | inr e ↦ inl (λ p. cc (e, (string_ord.beq_iff _ _).1 p))
  | inl e ↦ elim (Bool-cases (ltb baseline.restarts status.restarts)) [
    | inl f ↦ inr (inr (ground arith))
    | inr f ↦ inr (
        inl (
          λ p. ground (arith, string_ord.beq_iff status.result ""),
          λ p. ground (arith, string_ord.beq_iff status.result "success"),
        ))
  ]
]

failed-activation : (a : Activation) (b : Bool) → judge_activation a b ≡ bad → a ≡ Activation.failed
failed-activation Activation.succeeded b h = cc
failed-activation running true h = cc
failed-activation running false h = cc
failed-activation starting b h = cc
failed-activation Activation.failed b h = refl

IsBroken-bad :
    (status baseline : UnitStatus) (is_settled : Bool)
    → IsBroken status baseline
    → judge_activation (activation status baseline) is_settled ≡ bad
unfolding activation
IsBroken-bad status baseline is_settled (inl h) =
    ground (arith, string_ord.beq_iff status.load_state "loaded")
IsBroken-bad status baseline is_settled (inr (inl h)) =
    ground (arith, string_ord.beq_iff status.result "", string_ord.beq_iff status.result "success")
IsBroken-bad status baseline is_settled (inr (inr h)) = ground arith

IsHealthy-good :
    (status baseline : UnitStatus) (now : ℕ)
    → IsHealthy status baseline now
    → judge_activation (activation status baseline) (settled status now) ≡ good
unfolding activation settled
IsHealthy-good status baseline now h = ground (
  arith,
  string_ord.beq_iff status.load_state "loaded",
  string_ord.beq_iff status.result "",
  string_ord.beq_iff status.result "success",
  string_ord.beq_iff status.active_state "inactive",
  string_ord.beq_iff status.active_state "active",
)

module _ {Child : Type 0} where
  -- Every restart is past its job, and its unit is healthy against its baseline.
  abbrev pub AreHealthy : List (PendingRestart Child) → List UnitStatus → ℕ → Type 0
  AreHealthy [] statuses now = Unit {0}
  AreHealthy (p ∷ ps) [] now = ⊥
  AreHealthy (p ∷ ps) (status ∷ statuses) now =
      ((baseline : UnitStatus) × (p.state ≡ settling baseline) × IsHealthy status baseline now)
      × AreHealthy ps statuses now

  judged-good :
      (state : RestartState Child) (status : UnitStatus) (now : ℕ)
      → judge_unit state status now ≡ good
      → (baseline : UnitStatus) × (state ≡ settling baseline) × IsHealthy status baseline now
  unfolding judge_unit
  judged-good (job child) status now h = cc
  judged-good job_done status now h = cc
  judged-good (settling baseline) status now h =
      (baseline, refl, good-IsHealthy status baseline now h)

  noted-AreHealthy :
      (p : PendingRestart Child) (state : RestartState Child) (j : Judgement) (round : Round Child)
      (status : UnitStatus) (statuses : List UnitStatus) (now : ℕ)
      → judge_unit state status now ≡ j
      → is_empty (note_unit p state j round).failed_units ≡ true
      → is_empty (note_unit p state j round).waiting_units ≡ true
      → (is_empty round.failed_units ≡ true
          → is_empty round.waiting_units ≡ true
          → AreHealthy round.restarts statuses now)
      → AreHealthy (note_unit p state j round).restarts (status ∷ statuses) now
  noted-AreHealthy p state good round status statuses now e f w h =
      (judged-good state status now e, h f w)
  noted-AreHealthy p state waiting round status statuses now e f w h = cc
  noted-AreHealthy p state bad round status statuses now e f w h = cc

  pub judge-AreHealthy :
      (ps : List (PendingRestart Child)) (statuses : List UnitStatus) (now : ℕ)
      → length ps ≡ length statuses
      → is_empty (judge ps statuses now).failed_units ≡ true
      → is_empty (judge ps statuses now).waiting_units ≡ true
      → AreHealthy (judge ps statuses now).restarts statuses now
  unfolding judge
  judge-AreHealthy [] statuses now l f w = tt
  judge-AreHealthy (p ∷ ps) [] now l f w = absurd (omega arith)
  judge-AreHealthy (p ∷ ps) (status ∷ statuses) now l f w =
      noted-AreHealthy p (with_baseline status p.state) _ (judge ps statuses now) status statuses
        now refl f w (judge-AreHealthy ps statuses now (omega arith))

  settling-IsJudged :
      (status baseline : UnitStatus) (now : ℕ) (j : Judgement)
      → judge_activation (activation status baseline) (settled status now) ≡ j
      → IsJudged {Child = Child} status now (settling baseline) j
  settling-IsJudged status baseline now good h = healthy (good-IsHealthy status baseline now h)
  settling-IsJudged status baseline now bad h =
      broken (failed-IsBroken status baseline (failed-activation _ _ h))
  settling-IsJudged status baseline now waiting h =
      undecided (λ b. cc (h, IsBroken-bad status baseline (settled status now) b))
        (λ b. cc (h, IsHealthy-good status baseline now b))

  with_baseline-HasBaseline :
      (status : UnitStatus) (state : RestartState Child)
      → HasBaseline status state (with_baseline status state)
  unfolding with_baseline
  with_baseline-HasBaseline status (job child) = still_running
  with_baseline-HasBaseline status job_done = first_status
  with_baseline-HasBaseline status (settling baseline) = later_status

  judge_unit-IsJudged :
      (status : UnitStatus) (now : ℕ) (state : RestartState Child)
      → IsJudged status now
          (with_baseline status state)
          (judge_unit (with_baseline status state) status now)
  unfolding with_baseline judge_unit
  judge_unit-IsJudged status now (job child) = IsJudged.running
  judge_unit-IsJudged status now job_done = settling-IsJudged status status now _ refl
  judge_unit-IsJudged status now (settling baseline) = settling-IsJudged status baseline now _ refl

  note_unit-AreObserved :
      (p : PendingRestart Child) (state : RestartState Child) (status : UnitStatus) (now : ℕ)
      (j : Judgement) (ps : List (PendingRestart Child)) (statuses : List UnitStatus)
      (round : Round Child)
      → HasBaseline status p.state state
      → IsJudged status now state j
      → AreObserved now ps statuses round.restarts round.failed_units round.waiting_units
      → AreObserved now
          (p ∷ ps)
          (status ∷ statuses)
          (note_unit p state j round).restarts
          (note_unit p state j round).failed_units
          (note_unit p state j round).waiting_units
  note_unit-AreObserved p state status now good ps statuses round b h rest = observed b h rest
  note_unit-AreObserved p state status now waiting ps statuses round b h rest = observed b h rest
  note_unit-AreObserved p state status now bad ps statuses round b h rest = observed b h rest

  -- The code's round does what it should.
  pub judge-AreObserved :
      (ps : List (PendingRestart Child)) (statuses : List UnitStatus) (now : ℕ)
      → length ps ≡ length statuses
      → AreObserved now ps statuses
          (judge ps statuses now).restarts
          (judge ps statuses now).failed_units
          (judge ps statuses now).waiting_units
  unfolding judge
  judge-AreObserved [] [] now l = none_left
  judge-AreObserved [] (status ∷ statuses) now l = absurd (omega arith)
  judge-AreObserved (p ∷ ps) [] now l = absurd (omega arith)
  judge-AreObserved (p ∷ ps) (status ∷ statuses) now l =
      note_unit-AreObserved p (with_baseline status p.state) status now _ ps statuses
        (judge ps statuses now) (with_baseline-HasBaseline status p.state)
        (judge_unit-IsJudged status now p.state) (judge-AreObserved ps statuses now (omega arith))

  noted-length :
      (p : PendingRestart Child) (state : RestartState Child) (j : Judgement) (round : Round Child)
      → length (note_unit p state j round).restarts ≡ suc (length round.restarts)
  noted-length p state good round = refl
  noted-length p state waiting round = refl
  noted-length p state bad round = refl

  pub length-judge :
      (ps : List (PendingRestart Child)) (statuses : List UnitStatus) (now : ℕ)
      → length (judge ps statuses now).restarts ≡ length ps
  unfolding judge
  length-judge [] statuses now = refl
  length-judge (p ∷ ps) [] now = refl
  length-judge (p ∷ ps) (status ∷ statuses) now =
      noted-length p _ _ (judge ps statuses now) ∙ ap suc (length-judge ps statuses now)
