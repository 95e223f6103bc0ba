-- ===== src/Workers/Supervisor/Stopping.antt =====
-- How the supervisor ends workers (workers/supervisor.py).
use warden_demo_workload.Prelude.{
  String, ◌≡◌, refl, true, false, Option, none, some, [], ◌∷◌, ◌==◌, eq_iff, Bool-cases, inl, inr,
  ◌≢◌,
}
use warden_demo_workload.Python.Dict.{Dict, get}
use warden_demo_workload.Workers.Supervisor.{
  Os, Supervisor, runs, is_running, stop, stop_each, stop_all, stop_process,
}

module _ (os : Os) where
  -- Stopping a queue revives no process.
  end_process-dead :
      (p q : os.Process) (w : os.World)
      → os.alive w q ≡ false
      → os.alive (stop_process os (some p) w) q ≡ false
  end_process-dead p q w h = elim (Bool-cases (os.alive w p)) [
    | inr gone ↦ rw gone h
    | inl alive ↦
        let w1 : os.World = os.terminate p w in
        let waited = os.wait-dead p q w1 (os.terminate-dead p q w h) in
        rw alive (elim (Bool-cases (os.wait p w1).0) [
          | inl exited ↦ rw exited waited
          | inr late ↦ rw late (os.kill-dead p q _ waited)
        ])
  ]

  stop_process-dead :
      (o : Option os.Process) (q : os.Process) (w : os.World)
      → os.alive w q ≡ false
      → os.alive (stop_process os o w) q ≡ false
  stop_process-dead none q w h = h
  stop_process-dead (some p) q w h = end_process-dead p q w h

  -- Every process exits within the 10 seconds after its `terminate`.
  abbrev pub IsPrompt : Type 0
  IsPrompt = (p : os.Process) (w : os.World) → (os.wait p (os.terminate p w)).0 ≡ true

  stop_process-stopped :
      (o : Option os.Process) (w : os.World) → IsPrompt → runs os (stop_process os o w) o ≡ false
  stop_process-stopped none w prompt = refl
  stop_process-stopped (some p) w prompt = elim (Bool-cases (os.alive w p)) [
    | inr gone ↦ rw gone gone
    | inl alive ↦ rw (alive, prompt p w) (os.wait-exited p _ (prompt p w))
  ]

  runs-stop_process :
      (o r : Option os.Process) (w : os.World)
      → runs os w r ≡ false
      → runs os (stop_process os o w) r ≡ false
  runs-stop_process o none w h = refl
  runs-stop_process o (some p) w h = stop_process-dead o p w h

  stop_each-kept :
      (entries : Dict os.Process) (s : Supervisor os) (q : String)
      → is_running os q s ≡ false
      → is_running os q (stop_each os entries s) ≡ false
  unfolding stop_each stop is_running
  stop_each-kept [] s q h = h
  stop_each-kept ((r, p) ∷ entries) s q h =
      stop_each-kept entries (stop os r s) q
        (runs-stop_process (get s.procs r) (get s.procs q) s.world h)

  stop_each-stopped :
      (entries : Dict os.Process) (s : Supervisor os) (q : String)
      → IsPrompt
      → (get entries q ≢ none)
      → is_running os q (stop_each os entries s) ≡ false
  unfolding stop_each stop is_running get
  stop_each-stopped [] s q prompt listed = absurd (listed refl)
  stop_each-stopped ((r, p) ∷ entries) s q prompt listed = elim (Bool-cases (r == q)) [
    | inl here ↦
        let e : r ≡ q = (eq_iff r q).0 here in
        stop_each-kept entries (stop os r s) q
          (rw e (stop_process-stopped (get s.procs q) s.world prompt))
    | inr other ↦ stop_each-stopped entries (stop os r s) q prompt (rw other at listed)
  ]

  running-listed :
      (q : String) (s : Supervisor os) → is_running os q s ≡ true → get s.procs q ≢ none
  unfolding is_running
  running-listed q s h absent = cc (rw absent at h)

  -- After `stop_all` no worker runs, on any queue, when every process exits within 10 seconds of its
  -- `terminate`.
  pub stop_all-stopped :
      (s : Supervisor os) (q : String) → IsPrompt → is_running os q (stop_all os s) ≡ false
  unfolding stop_all
  stop_all-stopped s q prompt = elim (Bool-cases (is_running os q s)) [
    | inl running ↦ stop_each-stopped s.procs s q prompt (running-listed q s running)
    | inr down ↦ stop_each-kept s.procs s q down
  ]
