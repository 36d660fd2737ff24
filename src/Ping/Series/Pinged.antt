-- ===== src/Ping/Series/Pinged.antt =====
-- src/ping.rs: how many pings a host has answered when its series is complete.
use deptool.Base.{
  ◌≡◌, refl, sym, ◌∙◌, ap, ℕ, zero, suc, ◌+◌, some, List, [], ◌∷◌, ◌++◌, ok, arith, length,
  Option-cases, inl, inr, string_ord, ok-injective,
}
use deptool.BTreeMap.{get}
use deptool.BTreeMap.Laws.{get-insert}
use deptool.Types.{Hostname}
use deptool.Store.Repository.{Repository}
use deptool.Io.{pure}
use deptool.Io.Keeps.{bind-eq-ok}
use deptool.Deploy.Progress.{HostState, pinged, update_progress, set_state}
use deptool.Deploy.Connection.{Transport, Driver, update}
use deptool.Ping.{compute}
use deptool.Ping.Series.{ping_count, ping_loop, ping_connected}

length-add_last : (xs : List ℕ) (x : ℕ) → length (xs ++ (x ∷ [])) ≡ suc (length xs)
length-add_last [] x = refl
length-add_last (y ∷ ys) x = ap suc (length-add_last ys x)

module _ (R : Repository) (T : Transport) where
  get-update :
      (host : Hostname) (to : HostState) (d : Driver R T)
      → (update R T host to d).0 ≡ ok tt
      → get host (update R T host to d).1.progress.states ≡ some to
  unfolding update update_progress set_state
  get-update host to d h = elim (Option-cases (get host d.progress.states)) [
    | inl e ↦ cc (e, h)
    | inr (x, e) ↦
        rw e
          (ground (arith, get-insert host host to d.progress.states, string_ord.beq_iff host host))
  ]

  module _ (elapsed : T.Conn → ℕ) where
    length-ping_loop :
        (n : ℕ) (host : Hostname) (conn : T.Conn) (samples : List ℕ) (d : Driver R T)
        {result : List ℕ}
        → (ping_loop R T elapsed n host conn samples d).0 ≡ ok result
        → length result ≡ n + length samples
    unfolding ping_loop pure
    length-ping_loop zero host conn samples d h = omega (arith, ap length (sym (ok-injective h)))
    length-ping_loop (suc n) host conn samples d h =
        let (_, _, _, h1) = bind-eq-ok _ _ d h in
        let (_, _, _, h2) = bind-eq-ok _ _ _ h1 in
        let (_, _, _, h3) = bind-eq-ok _ _ _ h2 in
        let (_, _, _, h4) = bind-eq-ok _ _ _ h3 in
        omega (arith, length-ping_loop n host _ _ _ h4, length-add_last samples _)

    -- If the series of pings to a connected host succeeds, then the state of the host is that it
    -- is pinged, with the statistics of exactly as many samples as there are pings.
    pub ping_connected-pinged :
        (host : Hostname) (conn : T.Conn) (d : Driver R T)
        → (ping_connected R T elapsed host (some conn) d).0 ≡ ok tt
        → (samples : List ℕ) × (length samples ≡ ping_count)
          × (get host (ping_connected R T elapsed host (some conn) d).1.progress.states
              ≡ some (pinged (compute samples)))
    unfolding ping_connected
    ping_connected-pinged host conn d h =
        let (samples, series, e, h1) =
          bind-eq-ok (ping_loop R T elapsed ping_count host conn []) _ d h in
        (
          samples,
          length-ping_loop ping_count host conn [] d series,
          ap (λ x. get host x.1.progress.states) e
              ∙ get-update host (pinged (compute samples)) _ h1,
        )
