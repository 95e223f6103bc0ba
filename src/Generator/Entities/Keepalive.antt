-- ===== src/Generator/Entities/Keepalive.antt =====
-- What `ensure_entities` and `entity_keepalive_loop` keep alive (generator.py).
use warden_demo_workload.Prelude.{
  ◌≡◌, ◌≢◌, ◌⊎◌, inl, inr, refl, String, Bool, true, false, List, [], ◌∷◌, All, map,
}
use warden_demo_workload.Common.Constants.{dispatch_id}
use warden_demo_workload.Generator.Fleet.{StartOutcome, started, already_started, failed}
use warden_demo_workload.Generator.Entities.{
  Start, Cluster, start_all, control_start, entity_starts, ensure_control, ensure_entities,
  entity_keepalive_loop, run_startup, unless_failed, if_ended,
}

-- The entities that the demo needs.
abbrev pub entity_ids : List String
entity_ids =
    "dispatch-us-west" ∷ "dispatch-us-east" ∷ "dispatch-midwest" ∷ "dispatch-south"
    ∷ "dispatch-northeast" ∷ "menu-rest-1" ∷ "menu-rest-2" ∷ "menu-rest-3" ∷ "menu-rest-4" ∷ []

module _ (cluster : Cluster) where
  -- A start that the server answers with another error.
  abbrev pub Failure : Type 0
  Failure = (e : Start) × (s : cluster.State) × ((cluster.start e s).0 ≡ failed)

  abbrev pub AllOpen : List String → cluster.State → Type 0
  AllOpen ids s = All (λ id. cluster.is_open s id ≡ true) ids

  unless_failed-keeps :
      (o : StartOutcome) (s : cluster.State) (rest : Bool × cluster.State) (id : String)
      → cluster.is_open s id ≡ true
      → cluster.is_open rest.1 id ≡ true
      → cluster.is_open (unless_failed cluster o s rest).1 id ≡ true
  unless_failed-keeps started s rest id h k = k
  unless_failed-keeps already_started s rest id h k = k
  unless_failed-keeps failed s rest id h k = h

  start_all-keeps :
      (starts : List Start) (s : cluster.State) (id : String)
      → cluster.is_open s id ≡ true
      → cluster.is_open (start_all cluster starts s).1 id ≡ true
  unfolding start_all
  start_all-keeps [] s id h = h
  start_all-keeps (e ∷ starts) s id h =
      let s' : cluster.State = (cluster.start e s).1 in
      let kept : cluster.is_open s' id ≡ true = cluster.start-keeps e s id h in
      unless_failed-keeps (cluster.start e s).0 s' (start_all cluster starts s') id kept
        (start_all-keeps starts s' id kept)

  -- How a list of starts ends: everything is open, or one start has failed.
  abbrev pub Ends : List String → Bool × cluster.State → Type 0
  Ends ids r = ((r.0 ≡ true) × AllOpen ids r.1) ⊎ ((r.0 ≡ false) × Failure)

  start_all-Ends :
      (starts : List Start) (s : cluster.State)
      → Ends (map (λ e. e.id) starts) (start_all cluster starts s)
  unfolding start_all
  start_all-Ends [] s = inl (refl, tt)
  start_all-Ends (e ∷ starts) s =
      after (cluster.start e s).0 refl (start_all-Ends starts (cluster.start e s).1)
    where
      next :
          (o : StartOutcome)
          → (cluster.start e s).0 ≡ o
          → o ≢ failed
          → Ends (map (λ e. e.id) starts) (start_all cluster starts (cluster.start e s).1)
          → Ends (map (λ e. e.id) (e ∷ starts)) (start_all cluster starts (cluster.start e s).1)
      next o same ok (inr failure) = inr failure
      next o same ok (inl (ended, all)) =
          let opened : cluster.is_open (cluster.start e s).1 e.id ≡ true =
            cluster.start-opens e s (rw same ok) in
          inl (ended, (start_all-keeps starts (cluster.start e s).1 e.id opened, all))

      after :
          (o : StartOutcome)
          → (cluster.start e s).0 ≡ o
          → Ends (map (λ e. e.id) starts) (start_all cluster starts (cluster.start e s).1)
          → Ends (map (λ e. e.id) (e ∷ starts)) (
              unless_failed cluster o
                (cluster.start e s).1
                (start_all cluster starts (cluster.start e s).1))
      after started same h = next started same (λ f. cc f) h
      after already_started same h = next already_started same (λ f. cc f) h
      after failed same h = inr (refl, (e, s, same))

  pub ensure_entities-Ends : (s : cluster.State) → Ends entity_ids (ensure_entities cluster s)
  unfolding ensure_entities entity_starts dispatch_id
  ensure_entities-Ends s = start_all-Ends entity_starts s

  -- One round and the rounds that follow it.
  next_rounds :
      (r rest : Bool × cluster.State)
      → Ends entity_ids r
      → Ends entity_ids rest
      → Ends entity_ids (if_ended cluster r.0 r.1 rest)
  next_rounds r rest (inl (ended, all)) k = rw ended k
  next_rounds r rest (inr (stopped, failure)) k = rw stopped (inr (refl, failure))

  last_round :
      (r : Bool × cluster.State)
      → Ends entity_ids r
      → Ends entity_ids (if_ended cluster r.0 r.1 (true, r.1))
  last_round r (inl (ended, all)) = rw ended (inl (refl, all))
  last_round r (inr (stopped, failure)) = rw stopped (inr (refl, failure))

  -- Whatever happens to the server in between, after each round of the keepalive loop all five
  -- regions and all four menus have an open execution; or the loop is over, and the server has
  -- answered a start with an error other than that the workflow had started already.
  pub entity_keepalive_loop-Ends :
      (change : cluster.State → cluster.State) (changes : List (cluster.State → cluster.State))
      (s : cluster.State)
      → Ends entity_ids (entity_keepalive_loop cluster (change ∷ changes) s)
  unfolding entity_keepalive_loop
  entity_keepalive_loop-Ends change [] s =
      last_round (ensure_entities cluster (change s)) (ensure_entities-Ends (change s))
  entity_keepalive_loop-Ends change (next ∷ changes) s =
      next_rounds (ensure_entities cluster (change s)) _ (ensure_entities-Ends (change s))
        (entity_keepalive_loop-Ends next changes (ensure_entities cluster (change s)).1)

  control-then-entities :
      (r : Bool × cluster.State)
      → Ends ("demo-control" ∷ []) r
      → Ends entity_ids (ensure_entities cluster r.1)
      → Ends ("demo-control" ∷ entity_ids) (if_ended cluster r.0 r.1 (ensure_entities cluster r.1))
  unfolding ensure_entities
  control-then-entities r (inr (stopped, failure)) k = rw stopped (inr (refl, failure))
  control-then-entities r (inl (ended, opened)) (inr failure) = rw ended (inr failure)
  control-then-entities r (inl (ended, opened)) (inl (ended', all)) =
      rw ended (inl (ended', (start_all-keeps entity_starts r.1 "demo-control" opened.0, all)))

  -- The start of the generator: demo-control has an open execution too.
  pub run_startup-Ends :
      (s : cluster.State) → Ends ("demo-control" ∷ entity_ids) (run_startup cluster s)
  unfolding run_startup ensure_control control_start
  run_startup-Ends s =
      let r : Bool × cluster.State = ensure_control cluster s in
      control-then-entities r (start_all-Ends (control_start ∷ []) s) (ensure_entities-Ends r.1)
