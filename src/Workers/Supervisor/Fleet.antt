-- ===== src/Workers/Supervisor/Fleet.antt =====
-- What the supervisor keeps running (workers/supervisor.py).
use warden_demo_workload.Prelude.{
  String, ◌≡◌, refl, sym, Bool, true, false, Option, none, some, List, [], ◌∷◌, ◌==◌, if◌then◌else◌,
  All, arith, Bool-cases, inl, inr, eq_refl, subst, ◌∙◌, ◌⊎◌,
}
use warden_demo_workload.Python.Dict.{get, get-put}
use warden_demo_workload.Python.Value.{Result, ok}
use warden_demo_workload.Workers.Supervisor.{
  Os, Supervisor, is_in, runs, is_running, launch, start, start_each, start_all, heal_each, heal,
}

module _ (os : Os) where
  runs-launched :
      (b : Bool) (args : List String) (w : os.World) (o : Option os.Process)
      → runs os w o ≡ true
      → runs os (os.popen args w).1 (if b then some (os.popen args w).0 else o) ≡ true
  runs-launched true args w o h = os.popen-alive args w
  runs-launched false args w none h = cc h
  runs-launched false args w (some p) h = os.popen-keeps args w p h

  launch-is_running_self : (q : String) (s : Supervisor os) → is_running os q (launch os q s) ≡ true
  unfolding is_running launch
  launch-is_running_self q s = rw (get-put s.procs q q, eq_refl q) (os.popen-alive _ s.world)

  launch-is_running :
      (q r : String) (s : Supervisor os)
      → is_running os r s ≡ true
      → is_running os r (launch os q s) ≡ true
  unfolding is_running launch
  launch-is_running q r s h =
      rw (get-put s.procs q r) (runs-launched (q == r) _ s.world (get s.procs r) h)

  -- Every queue of the list has a worker that runs.
  abbrev pub AllRun : List String → Supervisor os → Type 0
  AllRun queues s = All (λ q. is_running os q s ≡ true) queues

  -- What starting some queues does: it succeeds, those queues run, and the others that ran still do.
  pub record Started (queues : List String) (s : Supervisor os) (r : Result (Supervisor os))
      : Type 0 where
    pub after : Supervisor os
    pub succeeds : r ≡ ok after
    pub same : after.queues ≡ s.queues
    pub run : AllRun queues after
    pub kept : (q : String) → is_running os q s ≡ true → is_running os q after ≡ true

  pub start-Started :
      (q : String) (s : Supervisor os) → is_in q s.queues ≡ true → Started (q ∷ []) s (start os q s)
  unfolding start
  start-Started q s known = elim (Bool-cases (is_running os q s)) [
    | inl running ↦ record {
      after = s;
      succeeds = rw (known, running) refl;
      same = refl;
      run = (running, tt);
      kept = λ r h. h;
    }
    | inr down ↦ record {
      after = launch os q s;
      succeeds = rw (known, down) refl;
      same = refl;
      run = (launch-is_running_self q s, tt);
      kept = λ r. launch-is_running q r s;
    }
  ]

  abbrev pub AllIn : (queues known : List String) → Type 0
  AllIn queues known = All (λ q. is_in q known ≡ true) queues

  AllRun-kept :
      (queues : List String) (s t : Supervisor os)
      → ((q : String) → is_running os q s ≡ true → is_running os q t ≡ true)
      → AllRun queues s
      → AllRun queues t
  AllRun-kept [] s t kept h = tt
  AllRun-kept (q ∷ queues) s t kept (h, hs) = (kept q h, AllRun-kept queues s t kept hs)

  pub start_each-Started :
      (queues : List String) (s : Supervisor os)
      → AllIn queues s.queues
      → Started queues s (start_each os queues s)
  unfolding start_each
  start_each-Started [] s h = record {
    after = s;
    succeeds = refl;
    same = refl;
    run = tt;
    kept = λ q h. h;
  }
  start_each-Started (q ∷ queues) s (h, hs) =
      let one = start-Started q s h in
      let rest = start_each-Started queues one.after (subst (AllIn queues) (sym one.same) hs) in
      record {
        after = rest.after;
        succeeds = rw one.succeeds rest.succeeds;
        same = rest.same ∙ one.same;
        run = (rest.kept q one.run.0, rest.run);
        kept = λ r running. rest.kept r (one.kept r running);
      }

  is_in-cons :
      (q x : String) (known : List String) → is_in q known ≡ true → is_in q (x ∷ known) ≡ true
  is_in-cons q x known h = ground (arith, h)

  AllIn-cons :
      (queues known : List String) (x : String) → AllIn queues known → AllIn queues (x ∷ known)
  AllIn-cons [] known x h = tt
  AllIn-cons (q ∷ queues) known x (h, hs) = (is_in-cons q x known h, AllIn-cons queues known x hs)

  pub AllIn-self : (queues : List String) → AllIn queues queues
  AllIn-self [] = tt
  AllIn-self (q ∷ queues) = (rw (eq_refl q) refl, AllIn-cons queues queues q (AllIn-self queues))

  -- After `start_all`, from any state, every queue of the supervisor has a worker that runs; it does
  -- not fail, and a queue that had a running worker has one still.
  start_all-AllRun :
      (s : Supervisor os)
      → (s' : Supervisor os) × (start_all os s ≡ ok s')
        × AllRun s.queues s'
        × ((q : String) → (is_running os q s ≡ false) ⊎ (is_running os q s' ≡ true))
  unfolding start_all
  start_all-AllRun s =
      let started = start_each-Started s.queues s (AllIn-self s.queues) in
      (
        started.after,
        started.succeeds,
        started.run,
        λ q. elim (Bool-cases (is_running os q s)) [
          | inl running ↦ inr (started.kept q running)
          | inr down ↦ inl down
        ],
      )

  heal_each-start_each :
      (queues : List String) (s : Supervisor os)
      → AllIn queues s.queues
      → heal_each os queues s ≡ start_each os queues s
  unfolding heal_each start_each start launch
  heal_each-start_each [] s h = refl
  heal_each-start_each (q ∷ queues) s (h, hs) = elim (Bool-cases (is_running os q s)) [
    | inl running ↦ rw (running, h) (heal_each-start_each queues s hs)
    | inr down ↦ rw (down, h) (heal_each-start_each queues (launch os q s) hs)
  ]

  -- A pass of the standalone loop does what `start_all` does.
  pub heal-start_all : (s : Supervisor os) → heal os s ≡ start_all os s
  unfolding heal start_all
  heal-start_all s = heal_each-start_each s.queues s (AllIn-self s.queues)
