-- ===== src/Workers/Supervisor/Standalone.antt =====
-- workers/supervisor.py: `_run_standalone`, which keeps the whole fleet running until a signal.
use warden_demo_workload.Prelude.{String, ◌≡◌, refl, ◌∙◌, false, none, List, [], ◌∷◌, subst}
use warden_demo_workload.Common.Constants.{all_task_queues}
use warden_demo_workload.Python.Value.{Result, ok, ◌>>=◌}
use warden_demo_workload.Workers.Supervisor.{
  Os, Supervisor, init, is_running, start_all, heal, stop_all,
}
use warden_demo_workload.Workers.Supervisor.Fleet.{
  AllRun, Started, start_each-Started, AllIn-self, heal-start_all,
}
use warden_demo_workload.Workers.Supervisor.Stopping.{IsPrompt, stop_all-stopped}

module _ (os : Os) where
  -- What becomes of the processes in a sleep is the world's.
  abbrev during : (os.World → os.World) → Supervisor os → Supervisor os
  during change s = record s { world = change s.world }

  -- The passes of the loop up to the signal, each with what happens in its sleep.
  unfoldable pub passes : List (os.World → os.World) → Supervisor os → Result (Supervisor os)
  unfolding heal
  passes [] s = ok s
  passes (change ∷ changes) s = heal os s >>= λ s'. passes changes (during change s')

  abbrev stopped : Result (Supervisor os) → Result (Supervisor os)
  unfolding stop_all
  stopped r = r >>= λ s. ok (stop_all os s)

  unfoldable pub run_standalone : List (os.World → os.World) → os.World → Result (Supervisor os)
  unfolding init start_all passes stopped
  run_standalone changes w = stopped (start_all os (init os none w) >>= passes changes)

  start_all-Started : (s : Supervisor os) → Started os s.queues s (start_all os s)
  unfolding start_all
  start_all-Started s = start_each-Started os s.queues s (AllIn-self os s.queues)

  heal-Started : (s : Supervisor os) → Started os s.queues s (heal os s)
  heal-Started s = rw (heal-start_all os s) (start_all-Started s)

  passes-ok :
      (changes : List (os.World → os.World)) (s : Supervisor os)
      → (s' : Supervisor os) × (passes changes s ≡ ok s') × (s'.queues ≡ s.queues)
  unfolding passes
  passes-ok [] s = (s, refl, refl)
  passes-ok (change ∷ changes) s =
      let healed = heal-Started s in
      let (s', e, same) = passes-ok changes (during change healed.after) in
      (s', rw healed.succeeds e, same ∙ healed.same)

  passes-after :
      (changes : List (os.World → os.World)) (r : Result (Supervisor os)) (s s' : Supervisor os)
      → r ≡ ok s
      → passes changes s ≡ ok s'
      → (r >>= passes changes) ≡ ok s'
  passes-after changes r s s' e h = rw e h

  stopped-ok :
      (r : Result (Supervisor os)) (s : Supervisor os) → r ≡ ok s → stopped r ≡ ok (stop_all os s)
  unfolding stopped
  stopped-ok r s e = rw e refl

  -- What the standalone supervisor does: it never fails; whatever its processes do, after the start
  -- and any number of passes the next pass leaves every task queue with a worker that runs; and when
  -- it ends, no worker is left.
  pub record StandsAlone (changes : List (os.World → os.World)) (w : os.World) : Type 0 where
    pub before : Supervisor os
    pub after : Supervisor os
    pub end : Supervisor os
    pub passed : (start_all os (init os none w) >>= passes changes) ≡ ok before
    pub healed : heal os before ≡ ok after
    pub all_run : AllRun os all_task_queues after
    pub ended : run_standalone changes w ≡ ok end
    pub none_left : (q : String) → is_running os q end ≡ false

  -- Whatever the processes do between its passes, the standalone supervisor raises nothing. After
  -- its start and any number of passes the next pass leaves every task queue with a worker that runs,
  -- and once it has ended no worker runs, if every process exits within 10 seconds of its
  -- `terminate`.
  pub run_standalone-StandsAlone :
      (changes : List (os.World → os.World)) (w : os.World) → IsPrompt os → StandsAlone changes w
  unfolding run_standalone init
  run_standalone-StandsAlone changes w prompt =
      let s : Supervisor os = init os none w in
      let begun = start_all-Started s in
      let (s', e, same) = passes-ok changes begun.after in
      let healed = heal-Started s' in
      let all : s'.queues ≡ all_task_queues = same ∙ begun.same in
      let passed : (start_all os s >>= passes changes) ≡ ok s' =
        passes-after changes (start_all os s) begun.after s' begun.succeeds e in
      record {
        before = s';
        after = healed.after;
        end = stop_all os s';
        passed = passed;
        healed = healed.succeeds;
        all_run = subst (λ queues. AllRun os queues healed.after) all healed.run;
        ended = stopped-ok _ s' passed;
        none_left = λ q. stop_all-stopped os s' q prompt;
      }
