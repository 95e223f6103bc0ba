-- ===== src/Dashboard/Lifespan/Endings.antt =====
-- What becomes of the requests and of the workers that the dashboard starts (dashboard/app.py).
use warden_demo_workload.Prelude.{
  String, ◌≡◌, refl, Bool, true, false, ◌==◌, if◌then◌else◌, none, some, List, [], ◌∷◌, All,
  Bool-cases, ◌⊎◌, inl, inr,
}
use warden_demo_workload.Common.Constants.{all_task_queues}
use warden_demo_workload.Common.Config.{Env, Config, Connect, load_config, connect}
use warden_demo_workload.Python.Value.{Conversions, ok, Attempt}
use warden_demo_workload.Workers.Backend.{Backend, processes}
use warden_demo_workload.Workers.Backend.Laws.{Laws, Succeeds, KnowsAll, processes-Laws}
use warden_demo_workload.Workers.Supervisor.{
  Os, Supervisor, init, is_in, is_running, start_all, stop_all,
}
use warden_demo_workload.Workers.Supervisor.Fleet.{AllRun, start_each-Started, AllIn-self}
use warden_demo_workload.Workers.Supervisor.Stopping.{IsPrompt, stop_all-stopped}
use warden_demo_workload.Generator.Fleet.{StartOutcome}
use warden_demo_workload.Dashboard.{
  Response, not_found, bad_request, failed, reported, worker_action, report, report_attempt,
}
use warden_demo_workload.Dashboard.Lifespan.{
  Event, passing, request, Ending, broken_off, ended, is_ready, serve, lifespan,
}

-- No exception of the supervisor.
abbrev pub IsHandled : Response → Type 0
IsHandled not_found = Unit
IsHandled bad_request = Unit
IsHandled (reported state) = Unit
IsHandled (failed e) = ⊥

module _ (b : Backend) (Known : b.State → Type 0) (laws : Laws b Known) where
  -- A request is handled, and the supervisor still knows every queue.
  abbrev Keeps : Response × b.State → Type 0
  Keeps (r, s) = IsHandled r × Known s

  if-Keeps :
      (t : Bool) (x y : Response × b.State)
      → (t ≡ true → Keeps x)
      → Keeps y
      → Keeps (if t then x else y)
  if-Keeps true x y h k = h refl
  if-Keeps false x y h k = k

  attempt-Keeps :
      (q : String) (a : Attempt b.State) → Succeeds Known a → Keeps (report_attempt b q a)
  unfolding report
  attempt-Keeps q (none, s) (e, known) = (tt, known)
  attempt-Keeps q (some error, s) (e, known) = cc e

  worker_action-Keeps :
      (q action : String) (s : b.State) → Known s → Keeps (worker_action b q action s)
  unfolding worker_action report
  worker_action-Keeps q action s all =
      if-Keeps (is_in q all_task_queues) _ (not_found, s)
        (λ known.
          if-Keeps (action == "stop") _ _
            (λ e. attempt-Keeps q (b.stop q s) (laws.stop-Known q s all))
            (if-Keeps (action == "start") _ _
              (λ e. attempt-Keeps q (b.start q s) (laws.start-Known q s known all))
              (if-Keeps (action == "restart") _ (bad_request, s)
                (λ e. attempt-Keeps q (b.restart q s) (laws.restart-Known q s known all))
                (tt, all))))
        (tt, all)

  -- No request to the worker route fails by an exception, from a state that knows every queue.
  pub serve-AllHandled :
      (events : List (Event b)) (s : b.State) → Known s → All IsHandled (serve b events s).0
  unfolding serve
  serve-AllHandled [] s all = tt
  serve-AllHandled (passing change ∷ events) s all =
      serve-AllHandled events (b.happen change s) (laws.happen-Known change s all)
  serve-AllHandled (request q action ∷ events) s all =
      let (handled, same) = worker_action-Keeps q action s all in
      (handled, serve-AllHandled events (worker_action b q action s).1 same)

module _ (os : Os) where
  -- An end after which no worker runs, with every request handled.
  pub record Clean (e : Ending (processes os)) : Type 0 where
    pub responses : List Response
    pub last : Supervisor os
    pub is_end : e ≡ ended responses last
    pub handled : All IsHandled responses
    pub none_left : (q : String) → is_running os q last ≡ false

  -- An exception that leaves the worker of every queue running.
  pub record Orphans (e : Ending (processes os)) : Type 0 where
    pub left : Supervisor os
    pub is_end : e ≡ broken_off left
    pub all_run : AllRun os all_task_queues left

  -- With settings that can be read, either the start succeeds, no request to the worker route then
  -- fails by an exception, and no worker runs at the end, if every process exits within 10 seconds of
  -- its `terminate`; or, when a setting is missing or the connection or the start of the control
  -- workflow fails, it ends with the workers of all queues running and nothing to stop them.
  pub lifespan-ends :
      (cv : Conversions) (env : Env) (config : Config) (dials : Connect → Bool)
      (outcome : StartOutcome) (events : List (Event (processes os))) (w : os.World)
      → load_config cv env ≡ ok config
      → IsPrompt os
      → ((is_ready (connect config) dials outcome ≡ true)
          × Clean (lifespan (processes os) cv env dials outcome events w))
        ⊎ ((is_ready (connect config) dials outcome ≡ false)
            × Orphans (lifespan (processes os) cv env dials outcome events w))
  unfolding lifespan init start_all
  lifespan-ends cv env config dials outcome events w read prompt =
      let s : Supervisor os = init os none w in
      let begun = start_each-Started os s.queues s (AllIn-self os s.queues) in
      elim (Bool-cases (is_ready (connect config) dials outcome)) [
        | inl ready ↦ inl (
          ready,
          record {
            responses = (serve (processes os) events begun.after).0;
            last = stop_all os (serve (processes os) events begun.after).1;
            is_end = rw (read, begun.succeeds, ready) refl;
            handled =
                serve-AllHandled (processes os) (KnowsAll os) (processes-Laws os) events begun.after
                  begun.same;
            none_left =
                λ q. stop_all-stopped os (serve (processes os) events begun.after).1 q prompt;
          },
        )
        | inr short ↦ inr (
          short,
          record {
            left = begun.after;
            is_end = rw (read, begun.succeeds, short) refl;
            all_run = begun.run;
          },
        )
      ]
