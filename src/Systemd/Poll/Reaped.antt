-- ===== src/Systemd/Poll/Reaped.antt =====
-- src/main.rs: which jobs a round reaps, and when the waiting is over.
use deptool.Base.{
  ◌≡◌, ◌≢◌, refl, ap, subst, String, ℕ, suc, Bool, true, false, ◌&&◌, List, [], ◌∷◌, length,
  is_empty, all, inl, inr, Bool-cases, arith,
}
use deptool.Store.Repository.{Repository}
use deptool.FileSystem.{FileSystem}
use deptool.Systemd.Host.{Systemd}
use deptool.Systemd.Poll.{
  RestartState, job, job_done, settling, PendingRestart, Round, reap_one, reaped, reap, is_over,
  is_restarted,
}
use deptool.Systemd.Poll.Steps.{
  AreReaped, none_left, ended, running, past, LoopState, HaveEnded, IsOver,
}

pub is_empty-nil : (xs : List String) → is_empty xs ≡ true → xs ≡ []
is_empty-nil [] h = refl
is_empty-nil (x ∷ xs) h = cc

module _ {R : Repository} {F : FileSystem R} (S : Systemd F) where
  pub length-reap :
      (ps : List (PendingRestart S.Child)) (now deadline : ℕ) (files : F.State)
      → length (reap S ps now deadline files).0.0 ≡ length ps
  unfolding reap
  length-reap [] now deadline files = refl
  length-reap (p ∷ ps) now deadline files = ap suc (length-reap ps now _ _)

  answered-AreReaped :
      (unit : String) (child : S.Child) (now deadline : ℕ) (files files1 : F.State) (b : Bool)
      (ps qs : List (PendingRestart S.Child)) (deadline' : ℕ) (files' : F.State)
      → S.try_wait child files ≡ (b, files1)
      → AreReaped S now ps
          (reaped S (record { unit = unit; state = job child }) now deadline (b, files1)).0.1
          files1
          qs
          deadline'
          files'
      → AreReaped S now
          (record { unit = unit; state = job child } ∷ ps)
          deadline
          files
          ((reaped S (record { unit = unit; state = job child }) now deadline (b, files1)).0.0 ∷ qs)
          deadline'
          files'
  answered-AreReaped unit child now deadline files files1 true ps qs deadline' files' e h =
      ended e h
  answered-AreReaped unit child now deadline files files1 false ps qs deadline' files' e h =
      running e h

  reaped-files :
      (p : PendingRestart S.Child) (now deadline : ℕ) (b : Bool) (files : F.State)
      → (reaped S p now deadline (b, files)).1 ≡ files
  reaped-files p now deadline true files = refl
  reaped-files p now deadline false files = refl

  reap_one-AreReaped :
      (unit : String) (state : RestartState S.Child) (now deadline : ℕ) (files : F.State)
      (ps qs : List (PendingRestart S.Child)) (deadline' : ℕ) (files' : F.State)
      → AreReaped S now ps
          (reap_one S (record { unit = unit; state = state }) now deadline files).0.1
          (reap_one S (record { unit = unit; state = state }) now deadline files).1
          qs
          deadline'
          files'
      → AreReaped S now
          (record { unit = unit; state = state } ∷ ps)
          deadline
          files
          ((reap_one S (record { unit = unit; state = state }) now deadline files).0.0 ∷ qs)
          deadline'
          files'
  unfolding reap_one
  reap_one-AreReaped unit (job child) now deadline files ps qs deadline' files' h =
      let (b, files1) = S.try_wait child files in
      answered-AreReaped unit child now deadline files files1 b ps qs deadline' files' refl (
        subst
          (λ f.
            AreReaped S now ps
              (reap_one S (record { unit = unit; state = job child }) now deadline files).0.1 f qs
              deadline' files')
          (reaped-files (record { unit = unit; state = job child }) now deadline b files1) h)
  reap_one-AreReaped unit job_done now deadline files ps qs deadline' files' h =
      past (λ child e. cc) h
  reap_one-AreReaped unit (settling b) now deadline files ps qs deadline' files' h =
      past (λ child e. cc) h

  -- The jobs are reaped as they should.
  pub reap-AreReaped :
      (ps : List (PendingRestart S.Child)) (now deadline : ℕ) (files : F.State)
      → AreReaped S now ps deadline files
          (reap S ps now deadline files).0.0
          (reap S ps now deadline files).0.1
          (reap S ps now deadline files).1
  unfolding reap
  reap-AreReaped [] now deadline files = none_left
  reap-AreReaped (p ∷ ps) now deadline files =
      reap_one-AreReaped p.unit p.state now deadline files ps _ _ _ (reap-AreReaped ps now _ _)

  restarted-past :
      (unit : String) (state : RestartState S.Child)
      → is_restarted (record { unit = unit; state = state }) ≡ true
      → (child : S.Child) → state ≢ job child
  restarted-past unit (job c) h child = cc
  restarted-past unit job_done h child = λ e. cc
  restarted-past unit (settling b) h child = λ e. cc

  past-restarted :
      (unit : String) (state : RestartState S.Child)
      → ((child : S.Child) → state ≢ job child)
      → is_restarted (record { unit = unit; state = state }) ≡ true
  past-restarted unit (job c) h = absurd (h c refl)
  past-restarted unit job_done h = refl
  past-restarted unit (settling b) h = refl

  all_restarted-HaveEnded :
      (ps : List (PendingRestart S.Child)) → all is_restarted ps ≡ true → HaveEnded ps
  all_restarted-HaveEnded [] h = tt
  all_restarted-HaveEnded (p ∷ ps) h =
      (restarted-past p.unit p.state (ground arith), all_restarted-HaveEnded ps (ground arith))

  HaveEnded-all_restarted :
      (ps : List (PendingRestart S.Child)) → HaveEnded ps → all is_restarted ps ≡ true
  HaveEnded-all_restarted [] h = refl
  HaveEnded-all_restarted (p ∷ ps) h =
      rw (HaveEnded-all_restarted ps h.1) (ap (λ b. b && true) (past-restarted p.unit p.state h.0))

  pub is_over-IsOver :
      (round : Round S.Child) (now : ℕ) (w : LoopState S)
      → w.restarts ≡ round.restarts
      → is_over S round now w.deadline ≡ true
      → IsOver S now w round.waiting_units
  is_over-IsOver round now w same h = (
    rw same (all_restarted-HaveEnded round.restarts (ground arith)),
    elim (Bool-cases (is_empty round.waiting_units)) [
      | inl e ↦ inl (is_empty-nil _ e)
      | inr e ↦ inr (ground arith)
    ],
  )

  pub IsOver-is_over :
      (round : Round S.Child) (now : ℕ) (w : LoopState S)
      → w.restarts ≡ round.restarts
      → IsOver S now w round.waiting_units
      → is_over S round now w.deadline ≡ true
  IsOver-is_over round now w same (h, inl e) =
      rw (HaveEnded-all_restarted round.restarts (subst HaveEnded same h), e) refl
  IsOver-is_over round now w same (h, inr e) =
      rw (HaveEnded-all_restarted round.restarts (subst HaveEnded same h)) (ground arith)
