-- ===== src/Systemd/Success.antt =====
-- src/main.rs: what an activation that succeeds says of the units.
use mathlib.Core.Path.{subst₂}
use deptool.Base.{
  ◌≡◌, refl, sym, ◌∙◌, ap, subst, String, ℕ, suc, ◌+◌, Bool, true, false, not, List, [], ◌∷◌, ◌++◌,
  Result, ok, err, length, is_empty, ok-injective,
}
use deptool.Types.{PathBuf}
use deptool.Protocol.{ApplyMode, deploy, reapply}
use deptool.Store.Repository.{Repository}
use deptool.FileSystem.{FileSystem, IoError}
use deptool.Io.{pure, fail, reads, when, modify, ◌>>=◌}
use deptool.Io.Keeps.{bind-eq-ok}
use deptool.Plan.Changes.{SystemDiff}
use deptool.Agent.Session.{DesiredState}
use deptool.Systemd.Host.{Systemd, Host, HostIo, log, on_files}
use deptool.Systemd.Poll.{PendingRestart, job, poll, patience}
use deptool.Systemd.Poll.Steps.{LoopState}
use deptool.Systemd.Poll.Verdict.{IsVerdict, poll-IsVerdict}
use deptool.Systemd.Activate.{
  SystemdActivator, verb, spawned, spawn_jobs, verdict, restart_units, prepare_host, activate_host,
  systemd_activate,
}

module _ {R : Repository} {F : FileSystem R} (S : Systemd F) where
  -- One job for each unit, each the process that `systemctl` with this word and the unit started.
  pub data AreSpawned (word : String)
      : List String → F.State → List (PendingRestart S.Child) → F.State → Type 0 where
    none_left : {files : F.State} → AreSpawned word [] files [] files
    spawn :
        {unit : String} {units : List String} {child : S.Child}
        {restarts : List (PendingRestart S.Child)} {files files' files'' : F.State}
        → S.spawn word unit files ≡ (ok child, files')
        → AreSpawned word units files' restarts files''
        → AreSpawned word
            (unit ∷ units)
            files
            (record { unit = unit; state = job child } ∷ restarts)
            files''

  -- One unit, given the jobs of the others.
  abbrev spawn_next :
      ApplyMode
      → String
      → List String
      → Result IoError S.Child
      → HostIo F (List (PendingRestart S.Child))
  spawn_next mode unit units answer = do
    pending ← spawned S mode unit answer
    rest ← spawn_jobs S mode units
    pure (pending ∷ rest)

  spawn_next-AreSpawned :
      (mode : ApplyMode) (unit : String) (units : List String) (answer : Result IoError S.Child)
      (files : F.State) (h : Host F) {restarts : List (PendingRestart S.Child)}
      → S.spawn (verb mode) unit files ≡ (answer, h.files)
      → ((rest : List (PendingRestart S.Child))
          → (spawn_jobs S mode units h).0 ≡ ok rest
          → AreSpawned (verb mode) units h.files rest (spawn_jobs S mode units h).1.files)
      → (spawn_next mode unit units answer h).0 ≡ ok restarts
      → AreSpawned
          (verb mode)
          (unit ∷ units)
          files
          restarts
          (spawn_next mode unit units answer h).1.files
  unfolding pure fail ◌>>=◌
  spawn_next-AreSpawned mode unit units (err x) files h e ih k = cc
  spawn_next-AreSpawned mode unit units (ok child) files h e ih k =
      let (rest, done, same, all) =
        bind-eq-ok (spawn_jobs S mode units)
          (λ rest. pure (record { unit = unit; state = job child } ∷ rest)) h k in
      subst₂ (AreSpawned (verb mode) (unit ∷ units) files) (ok-injective all)
        (ap (λ x. x.1.files) (sym same)) (spawn e (ih rest done))

  spawn_jobs-AreSpawned :
      (mode : ApplyMode) (units : List String) (h : Host F)
      (restarts : List (PendingRestart S.Child))
      → (spawn_jobs S mode units h).0 ≡ ok restarts
      → AreSpawned (verb mode) units h.files restarts (spawn_jobs S mode units h).1.files
  unfolding spawn_jobs pure log modify on_files ◌>>=◌
  spawn_jobs-AreSpawned mode [] h restarts e =
      subst (λ r. AreSpawned (verb mode) [] h.files r h.files) (ok-injective e) none_left
  spawn_jobs-AreSpawned mode (unit ∷ units) h restarts e =
      spawn_next-AreSpawned mode unit units _ h.files _ refl
        (λ rest. spawn_jobs-AreSpawned mode units _ rest) e

  length-spawn_jobs :
      (mode : ApplyMode) (units : List String) (h : Host F)
      {restarts : List (PendingRestart S.Child)}
      → (spawn_jobs S mode units h).0 ≡ ok restarts
      → length restarts ≡ length units
  unfolding spawn_jobs pure
  length-spawn_jobs mode [] h e = sym (ap length (ok-injective e))
  length-spawn_jobs mode (unit ∷ units) h e =
      let (_, _, _, e1) = bind-eq-ok (log F _) _ h e in
      let (child, _, _, e2) = bind-eq-ok (on_files F _) _ _ e1 in
      let (pending, _, _, e3) = bind-eq-ok (spawned S mode unit child) _ _ e2 in
      let (rest, done, _, e4) = bind-eq-ok (spawn_jobs S mode units) _ _ e3 in
      sym (ap length (ok-injective e4)) ∙ ap suc (length-spawn_jobs mode units _ done)

  verdict-ok : (units : List String) (h : Host F) → (verdict S units h).0 ≡ ok tt → units ≡ []
  unfolding fail
  verdict-ok [] h e = refl
  verdict-ok (unit ∷ units) h e = cc

  -- The jobs of the units were started after all else, the loop started with them and a deadline of
  -- 10 s, and it ended without a failed unit.
  pub record WasWatched (dirs : SystemdActivator) (mode : ApplyMode) (desired : DesiredState)
      (changes : SystemDiff PathBuf) (files : F.State) (touched : List String) : Type 0 where
    pub before : Host F
    pub prepared :
        prepare_host S dirs desired changes (record { files = files; messages = []; lines = [] })
        ≡ (ok tt, before)
    pub word : String
    pub restarted : (is_rollback_safe : Bool) → mode ≡ deploy is_rollback_safe → word ≡ "restart"
    pub started : mode ≡ reapply → word ≡ "start"
    pub start : LoopState S
    pub jobs : AreSpawned word touched before.files start.restarts start.files
    pub has_patience : start.deadline ≡ S.monotonic_now start.files + 10000000000
    pub no_failures : IsVerdict S touched start []

  -- What a restart of the units says, from a host.
  record WasRestarted (mode : ApplyMode) (touched : List String) (h : Host F) : Type 0 where
    start : LoopState S
    jobs : AreSpawned (verb mode) touched h.files start.restarts start.files
    has_patience : start.deadline ≡ S.monotonic_now start.files + 10000000000
    no_failures : IsVerdict S touched start []

  restart_units-WasRestarted :
      (rounds : ℕ) (mode : ApplyMode) (touched : List String) (h : Host F)
      → (restart_units S rounds mode touched h).0 ≡ ok tt
      → WasRestarted mode touched h
  unfolding restart_units reads
  restart_units-WasRestarted rounds mode touched h e =
      let (restarts, spawns, _, e1) = bind-eq-ok (spawn_jobs S mode touched) _ h e in
      let (now, seen, _, e2) = bind-eq-ok (reads _) _ _ e1 in
      let (failed_units, polled, _, e3) =
        bind-eq-ok (poll S rounds touched restarts _ false) _ _ e2 in
      let (status, _, _, e4) = bind-eq-ok (on_files F _) _ _ e3 in
      let (_, _, _, e5) = bind-eq-ok _ _ _ e4 in
      record {
        start = record {
          restarts = restarts;
          deadline = now + patience;
          files = (spawn_jobs S mode touched h).1.files;
        };
        jobs = spawn_jobs-AreSpawned mode touched h restarts spawns;
        has_patience = ap (λ x. x + patience) (sym (ok-injective seen));
        no_failures = subst (IsVerdict S touched _) (verdict-ok failed_units _ e5) (
            poll-IsVerdict S rounds touched restarts (now + patience) false _
              (length-spawn_jobs mode touched _ spawns) polled);
      }

  when-WasRestarted :
      (rounds : ℕ) (mode : ApplyMode) (touched : List String) (h : Host F) (b : Bool)
      → b ≡ true
      → (when b (restart_units S rounds mode touched) h).0 ≡ ok tt
      → WasRestarted mode touched h
  when-WasRestarted rounds mode touched h true some e =
      restart_units-WasRestarted rounds mode touched h e
  when-WasRestarted rounds mode touched h false some e = cc

  -- If an activation with units to enable or restart succeeds, then `prepare_host` succeeded from
  -- the given files, and after it `systemctl restart`, or `start` on a reapply, was started for
  -- each unit in turn. The loop began with these processes and a deadline of 10 s, and ended by
  -- rounds with no failed unit, as poll-IsVerdict says of the loop: each process was seen to end,
  -- and in the last round each unit was healthy against its baseline, or the deadline had passed.
  pub activate-WasWatched :
      (rounds : ℕ) (dirs : SystemdActivator) (mode : ApplyMode) (desired : DesiredState)
      (changes : SystemDiff PathBuf) (files : F.State)
      → is_empty (changes.unit_actions.enable ++ changes.unit_actions.restart) ≡ false
      → (systemd_activate S rounds dirs mode desired changes files).result ≡ ok tt
      → WasWatched dirs mode desired changes files
          (changes.unit_actions.enable ++ changes.unit_actions.restart)
  unfolding systemd_activate activate_host
  activate-WasWatched rounds dirs mode desired changes files some e =
      let h : Host F = record { files = files; messages = []; lines = [] } in
      let (_, prepared, _, restarting) = bind-eq-ok (prepare_host S dirs desired changes) _ h e in
      let run =
        when-WasRestarted rounds mode (changes.unit_actions.enable ++ changes.unit_actions.restart)
          (prepare_host S dirs desired changes h).1 _ (ap not some) restarting in
      record {
        before = (prepare_host S dirs desired changes h).1;
        prepared = ap (λ x. (x, (prepare_host S dirs desired changes h).1)) prepared;
        word = verb mode;
        restarted = λ is_rollback_safe same. ap verb same;
        started = λ same. ap verb same;
        start = run.start;
        jobs = run.jobs;
        has_patience = run.has_patience;
        no_failures = run.no_failures;
      }
