-- ===== src/Generator/Run/Apart.antt =====
-- What the loops of the generator do to each other (generator.py).
use warden_demo_workload.Prelude.{
  ◌≡◌, refl, ap, Bool, true, false, List, [], ◌∷◌, ◌++◌, ◌⊎◌, inl, inr, Bool-cases, arith, not, ◌∙◌,
  sym,
}
use warden_demo_workload.Common.Config.{Config}
use warden_demo_workload.Python.Value.{Conversions}
use warden_demo_workload.Generator.Entities.{
  Cluster, entity_keepalive_loop, ensure_entities, if_ended,
}
use warden_demo_workload.Generator.Relay.{control_loop}
use warden_demo_workload.Generator.Traffic.{order_loop, batch_loop}
use warden_demo_workload.Generator.Run.{
  refreshed, Generator, Turn, order, courier, batch, control, keepalive, take_turn, is_over, gather,
}
use warden_demo_workload.Generator.Run.Views.{
  order_loop-alive, batch_loop-alive, control_loop-alive, order_turns, batch_turns, readings, ticks,
  changes, couriers_from,
}

true_of_not : (b : Bool) → not b ≡ false → b ≡ true
true_of_not true h = refl
true_of_not false h = cc h

module _ (cluster : Cluster) (cv : Conversions) (config : Config) where
  -- Each loop has made its own turns, and no other has touched what it keeps.
  pub record Alone (turns : List (Turn cluster cv config)) (g g' : Generator cluster cv config)
      : Type 0 where
    pub orders :
        g'.orders
        ≡ order_loop cv config.order_stage_tracking
            (order_turns cluster cv config g.scenarios turns)
            g.orders
    pub couriers :
        g'.couriers
        ≡ couriers_from config.courier_fleet_size (ticks cluster cv config turns) g.couriers
    pub batches :
        g'.batches ≡ batch_loop cv (batch_turns cluster cv config g.scenarios turns) g.batches
    pub relay : g'.relay ≡ control_loop cv (readings cluster cv config g.scenarios turns) g.relay

  -- The same of the keepalive loop, which may have raised.
  abbrev pub IsKept :
      List (Turn cluster cv config)
      → Generator cluster cv config
      → Generator cluster cv config
      → Type 0
  IsKept turns g g' =
      entity_keepalive_loop cluster (changes cluster cv config turns) g.server
      ≡ (not g'.keepalive_died, g'.server)

  -- No loop has raised.
  record Lives (g : Generator cluster cv config) : Type 0 where
    pub orders : g.orders.died ≡ false
    pub batches : g.batches.died ≡ false
    pub relay : g.relay.died ≡ false
    pub entities : g.keepalive_died ≡ false

  Lives-of : (g : Generator cluster cv config) → is_over cluster cv config g ≡ false → Lives g
  Lives-of g h = record {
    orders = ground (arith, h);
    batches = ground (arith, h);
    relay = ground (arith, h);
    entities = ground (arith, h);
  }

  none-Alone : (g : Generator cluster cv config) → Alone [] g g
  unfolding order_loop batch_loop control_loop
  none-Alone g = record { orders = refl; couriers = refl; batches = refl; relay = refl }

  -- A turn, and the turns after it, while no loop has raised.
  then-Alone :
      (t : Turn cluster cv config) (turns : List (Turn cluster cv config))
      (g g' : Generator cluster cv config)
      → Lives g
      → Alone turns (take_turn cluster cv config t g) g'
      → Alone (t ∷ turns) g g'
  unfolding take_turn order_loop batch_loop control_loop
  then-Alone (order draws outcome) turns g g' live h = record {
    orders =
        h.orders
        ∙ sym (
            order_loop-alive cluster cv config
              (record { scenarios = g.scenarios; draws = draws; outcome = outcome })
              (order_turns cluster cv config g.scenarios turns) g.orders live.orders);
    couriers = h.couriers;
    batches = h.batches;
    relay = h.relay;
  }
  then-Alone (courier t) turns g g' live h = record {
    orders = h.orders;
    couriers = h.couriers;
    batches = h.batches;
    relay = h.relay;
  }
  then-Alone (batch id size outcome) turns g g' live h = record {
    orders = h.orders;
    couriers = h.couriers;
    batches =
        h.batches
        ∙ sym (
            batch_loop-alive cluster cv config
              (record { scenarios = g.scenarios; batch_id = id; size = size; outcome = outcome })
              (batch_turns cluster cv config g.scenarios turns) g.batches live.batches);
    relay = h.relay;
  }
  then-Alone (control answer) turns g g' live h = record {
    orders = h.orders;
    couriers = h.couriers;
    batches = h.batches;
    relay =
        h.relay
        ∙ sym (
            control_loop-alive cluster cv config (refreshed answer g.scenarios)
              (readings cluster cv config (refreshed answer g.scenarios) turns) g.relay live.relay);
  }
  then-Alone (keepalive change) turns g g' live h = record {
    orders = h.orders;
    couriers = h.couriers;
    batches = h.batches;
    relay = h.relay;
  }

  none-IsKept : (g : Generator cluster cv config) → g.keepalive_died ≡ false → IsKept [] g g
  unfolding entity_keepalive_loop
  none-IsKept g h = rw h refl

  then-IsKept :
      (t : Turn cluster cv config) (turns : List (Turn cluster cv config))
      (g g' : Generator cluster cv config)
      → (take_turn cluster cv config t g).keepalive_died ≡ false
      → IsKept turns (take_turn cluster cv config t g) g'
      → IsKept (t ∷ turns) g g'
  unfolding take_turn entity_keepalive_loop
  then-IsKept (keepalive change) turns g g' on h =
      simp (true_of_not (ensure_entities cluster (change g.server)).0 on) h
  then-IsKept (order draws outcome) turns g g' on h = h
  then-IsKept (courier t) turns g g' on h = h
  then-IsKept (batch id size outcome) turns g g' on h = h
  then-IsKept (control answer) turns g g' on h = h

  stopped : (r : Bool × cluster.State) → if_ended cluster r.0 r.1 (true, r.1) ≡ (not (not r.0), r.1)
  stopped (true, s) = refl
  stopped (false, s) = refl

  last-IsKept :
      (t : Turn cluster cv config) (g : Generator cluster cv config)
      → g.keepalive_died ≡ false
      → IsKept (t ∷ []) g (take_turn cluster cv config t g)
  unfolding take_turn entity_keepalive_loop
  last-IsKept (keepalive change) g h = stopped (ensure_entities cluster (change g.server))
  last-IsKept (order draws outcome) g h = none-IsKept g h
  last-IsKept (courier t) g h = none-IsKept g h
  last-IsKept (batch id size outcome) g h = none-IsKept g h
  last-IsKept (control answer) g h = none-IsKept g h

  gather_over :
      (turns : List (Turn cluster cv config)) (g : Generator cluster cv config)
      → is_over cluster cv config g ≡ true
      → gather cluster cv config turns g ≡ g
  unfolding gather
  gather_over [] g over = refl
  gather_over (t ∷ turns) g over = rw over refl

  -- What a run of the loops comes to: some of the turns have been made, all of them unless one of the
  -- loops has raised, and each loop is where it would be by itself.
  pub record IsApart (turns : List (Turn cluster cv config)) (g g' : Generator cluster cv config)
      : Type 0 where
    pub made : List (Turn cluster cv config)
    pub left : List (Turn cluster cv config)
    pub split : turns ≡ made ++ left
    pub alone : Alone made g g'
    pub kept : IsKept made g g'
    pub stops : (left ≡ []) ⊎ (is_over cluster cv config g' ≡ true)

  -- However the turns of the loops come one after the other, each loop does what it does by itself on
  -- its own turns: the orders, the couriers, the batches, the relay and the entities are what their
  -- loops make of them, with the scenarios that `control_loop` has read last, up to the first
  -- exception of any loop, which ends them all.
  pub gather-IsApart :
      (turns : List (Turn cluster cv config)) (g : Generator cluster cv config)
      → is_over cluster cv config g ≡ false
      → IsApart turns g (gather cluster cv config turns g)
  unfolding gather
  gather-IsApart [] g on = record {
    made = [];
    left = [];
    split = refl;
    alone = none-Alone g;
    kept = none-IsKept g (Lives-of g on).entities;
    stops = inl refl;
  }
  gather-IsApart (t ∷ turns) g on =
      let g' : Generator cluster cv config = take_turn cluster cv config t g in
      elim (Bool-cases (is_over cluster cv config g')) [
        | inr goes_on ↦
            let rest : IsApart turns g' (gather cluster cv config turns g') =
              gather-IsApart turns g' goes_on in
            rw on (record {
              made = t ∷ rest.made;
              left = rest.left;
              split = ap (λ ts. t ∷ ts) rest.split;
              alone =
                  then-Alone t rest.made g (gather cluster cv config turns g') (Lives-of g on)
                    rest.alone;
              kept =
                  then-IsKept t rest.made g (gather cluster cv config turns g')
                    (Lives-of g' goes_on).entities rest.kept;
              stops = rest.stops;
            })
        | inl over ↦
            rw (on, gather_over turns g' over)
              (record {
                made = t ∷ [];
                left = turns;
                split = refl;
                alone = then-Alone t [] g g' (Lives-of g on) (none-Alone g');
                kept = last-IsKept t g (Lives-of g on).entities;
                stops = inr over;
              })
      ]
