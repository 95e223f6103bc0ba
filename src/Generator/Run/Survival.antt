-- ===== src/Generator/Run/Survival.antt =====
-- What keeps the generator running (generator.py).
use warden_demo_workload.Prelude.{
  ◌≡◌, ◌≢◌, refl, sym, ap, true, false, List, [], ◌∷◌, All, inl, inr, arith, Option, none, some,
  subst, ◌∙◌, ◌++◌, append-nil, length,
}
use warden_demo_workload.Common.Config.{Config}
use warden_demo_workload.Control.Schema.{Scenarios}
use warden_demo_workload.Control.Cache.{get_params}
use warden_demo_workload.Python.Dict.{get}
use warden_demo_workload.Python.Value.{Conversions}
use warden_demo_workload.Generator.Entities.{Cluster, Start, ensure_entities}
use warden_demo_workload.Generator.Entities.Keepalive.{ensure_entities-Ends}
use warden_demo_workload.Generator.Fleet.{StartOutcome, failed}
use warden_demo_workload.Generator.Inputs.{order_input, batch_input}
use warden_demo_workload.Generator.Traffic.{order_turn, batch_turn}
use warden_demo_workload.Generator.Traffic.Lives.{
  order_input-IsOk, IsAlive, IsReadable, successes, order_loop-IsAlive,
}
use warden_demo_workload.Generator.Run.{
  Generator, Turn, order, courier, batch, control, keepalive, refreshed, take_turn, is_over, gather,
}
use warden_demo_workload.Generator.Run.Sound.{
  IsSound, batch_input-IsOk, order_made-alive, batch_made-alive, control_tick-alive,
}
use warden_demo_workload.Generator.Run.Apart.{Alone, IsApart, gather-IsApart}
use warden_demo_workload.Generator.Run.{run, started_with}
use warden_demo_workload.Generator.Run.Views.{ticks, order_turns}
use warden_demo_workload.Generator.Run.Shifts.{Splits, couriers_from-Splits}
use warden_demo_workload.Generator.Fleet
use warden_demo_workload.Generator.Entities.{run_startup}
use warden_demo_workload.Generator.Entities.Keepalive.{run_startup-Ends, AllOpen, entity_ids}

module _ (cluster : Cluster) (cv : Conversions) (config : Config) where
  -- No start of an entity fails with an error other than that it has started already.
  abbrev pub IsUp : Type 0
  IsUp = (e : Start) (s : cluster.State) → (cluster.start e s).0 ≢ failed

  ensure_entities-ended : (s : cluster.State) → IsUp → (ensure_entities cluster s).0 ≡ true
  ensure_entities-ended s up = elim (ensure_entities-Ends cluster s) [
    | inl (ended, all) ↦ ended
    | inr (stopped, (e, s', same)) ↦ absurd (up e s' same)
  ]

  -- What a turn reads is sound.
  abbrev pub ReadsSound : Turn cluster cv config → Type 0
  ReadsSound (control (some new)) = IsSound cv new
  ReadsSound (control none) = Unit
  ReadsSound (order draws outcome) = Unit
  ReadsSound (courier t) = Unit
  ReadsSound (batch id size outcome) = Unit
  ReadsSound (keepalive change) = Unit

  -- A generator that goes on, on sound scenarios.
  abbrev GoesOn : Generator cluster cv config → Type 0
  GoesOn g = (is_over cluster cv config g ≡ false) × IsSound cv g.scenarios

  take_turn-GoesOn :
      (t : Turn cluster cv config) (g : Generator cluster cv config)
      → IsUp
      → ReadsSound t
      → GoesOn g
      → GoesOn (take_turn cluster cv config t g)
  unfolding take_turn order_turn batch_turn
  take_turn-GoesOn (order draws outcome) g up reads (on, sound) = (
    rw
        (order_made-alive outcome (order_input cv config.order_stage_tracking g.scenarios draws)
          g.orders (order_input-IsOk cv config.order_stage_tracking g.scenarios draws sound.orders))
        on,
    sound,
  )
  take_turn-GoesOn (courier t) g up reads (on, sound) = (on, sound)
  take_turn-GoesOn (batch id size outcome) g up reads (on, sound) = (
    rw
        (batch_made-alive outcome (batch_input cv g.scenarios id size) g.batches
          (batch_input-IsOk cv g.scenarios id size sound))
        on,
    sound,
  )
  take_turn-GoesOn (control none) g up reads (on, sound) =
      (rw (control_tick-alive cv g.scenarios g.relay sound) on, sound)
  take_turn-GoesOn (control (some new)) g up reads (on, sound) =
      (rw (control_tick-alive cv new g.relay reads) on, reads)
  take_turn-GoesOn (keepalive change) g up reads (on, sound) =
      (rw (ensure_entities-ended (change g.server) up) (ground (arith, on)), sound)

  gather-GoesOn :
      (turns : List (Turn cluster cv config)) (g : Generator cluster cv config)
      → IsUp
      → All ReadsSound turns
      → GoesOn g
      → is_over cluster cv config (gather cluster cv config turns g) ≡ false
  unfolding gather
  gather-GoesOn [] g up reads goes = goes.0
  gather-GoesOn (t ∷ turns) g up (read, reads) goes = rw goes.0 (
      gather-GoesOn turns (take_turn cluster cv config t g) up reads
        (take_turn-GoesOn t g up read goes))

  -- A run of the generator after some turns: no loop has raised, each is where its own turns bring
  -- it, and every region, menu and the control workflow has been started.
  pub record IsRunning (answer : Option Scenarios) (turns : List (Turn cluster cv config))
      (s : cluster.State) (r : Option (Generator cluster cv config)) : Type 0 where
    pub after : Generator cluster cv config
    pub goes_on : r ≡ some after
    pub alive : is_over cluster cv config after ≡ false
    pub alone :
        Alone cluster cv config turns
          (started_with cluster cv config answer (run_startup cluster s).1)
          after
    pub fleet :
        Splits config.courier_fleet_size
          (ticks cluster cv config turns)
          Fleet.init
          after.couriers.fleet
    pub asked :
        IsAlive
          (length (order_turns cluster cv config (refreshed answer []) turns))
          (successes (order_turns cluster cv config (refreshed answer []) turns))
          after.orders
    pub opened : AllOpen cluster ("demo-control" ∷ entity_ids) (run_startup cluster s).1

  order_turns-IsReadable :
      (turns : List (Turn cluster cv config)) (s : Scenarios)
      → All ReadsSound turns
      → IsSound cv s
      → All (λ t. IsReadable cv t.scenarios) (order_turns cluster cv config s turns)
  order_turns-IsReadable [] s reads sound = tt
  order_turns-IsReadable (order draws outcome ∷ turns) s (read, reads) sound =
      (sound.orders, order_turns-IsReadable turns s reads sound)
  order_turns-IsReadable (courier t ∷ turns) s (read, reads) sound =
      order_turns-IsReadable turns s reads sound
  order_turns-IsReadable (batch id size outcome ∷ turns) s (read, reads) sound =
      order_turns-IsReadable turns s reads sound
  order_turns-IsReadable (control none ∷ turns) s (read, reads) sound =
      order_turns-IsReadable turns s reads sound
  order_turns-IsReadable (control (some new) ∷ turns) s (read, reads) sound =
      order_turns-IsReadable turns new reads read
  order_turns-IsReadable (keepalive change ∷ turns) s (read, reads) sound =
      order_turns-IsReadable turns s reads sound

  empty-IsSound : IsSound cv []
  unfolding get get_params
  empty-IsSound = record {
    orders = record { failure = tt; timeout = tt };
    children = tt;
    iterations = tt;
    rate = tt;
  }

  -- While the scenarios that are read have numbers, or texts of numbers, for the parameters that the
  -- loops convert, and the server fails no start of an entity, the generator runs on, whatever else
  -- its turns are and in whatever order: it opens demo-control, every region and every menu, every
  -- turn of every loop is made, each loop does what it does by itself, on the scenarios that were read
  -- last, and a start is asked for in each turn of the orders, however many of them the server refuses,
  -- and counted when it succeeds.
  pub run-IsRunning :
      (answer : Option Scenarios) (turns : List (Turn cluster cv config)) (s : cluster.State)
      → IsUp
      → All ReadsSound (control answer ∷ turns)
      → IsRunning answer turns s (run cluster cv config answer turns s)
  unfolding run
  run-IsRunning answer turns s up (read, reads) = elim (run_startup-Ends cluster s) [
    | inr (stopped, (e, s', same)) ↦ absurd (up e s' same)
    | inl (ended, opened) ↦
        let g = started_with cluster cv config answer (run_startup cluster s).1 in
        let g' = gather cluster cv config turns g in
        let alive = gather-GoesOn turns g up reads (refl, first answer read) in
        let alone = all-Alone turns g alive (gather-IsApart cluster cv config turns g refl) in
        record {
          after = g';
          goes_on = rw ended refl;
          alive = alive;
          alone = alone;
          fleet =
              subst
                (λ c.
                  Splits config.courier_fleet_size (ticks cluster cv config turns) Fleet.init
                    c.fleet)
                (sym alone.couriers)
                (couriers_from-Splits config.courier_fleet_size (ticks cluster cv config turns)
                  Fleet.init);
          asked =
              subst
                (IsAlive (length (order_turns cluster cv config (refreshed answer []) turns))
                  (successes (order_turns cluster cv config (refreshed answer []) turns)))
                (sym alone.orders)
                (order_loop-IsAlive cv config.order_stage_tracking
                  (order_turns cluster cv config (refreshed answer []) turns)
                  (order_turns-IsReadable turns (refreshed answer []) reads (first answer read)));
          opened = opened;
        }
  ]
    where
      first :
          (answer : Option Scenarios)
          → ReadsSound (control answer)
          → IsSound cv (refreshed answer [])
      first none h = empty-IsSound
      first (some new) h = h

      all-Alone :
          (turns : List (Turn cluster cv config)) (g : Generator cluster cv config)
          → is_over cluster cv config (gather cluster cv config turns g) ≡ false
          → IsApart cluster cv config turns g (gather cluster cv config turns g)
          → Alone cluster cv config turns g (gather cluster cv config turns g)
      all-Alone turns g alive p = elim p.stops [
        | inr over ↦ absurd (ground (arith, alive, over))
        | inl none_left ↦
            let all : turns ≡ p.made =
              p.split ∙ ap (λ ts. p.made ++ ts) none_left ∙ append-nil p.made in
            subst (λ ts. Alone cluster cv config ts g (gather cluster cv config turns g)) (sym all)
              p.alone
      ]
