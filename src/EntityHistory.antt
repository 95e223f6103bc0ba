-- ===== src/EntityHistory.antt =====
-- The fault `entity_history` from the scenarios to the regions (generator.py, workflows/dispatch.py): the
-- signals of the relay are what the regions' entities receive.
mod Tests
use warden_demo_workload.Prelude.{
  String, ◌≡◌, refl, sym, ap, subst, ◌∙◌, Bool, true, false, List, [], ◌∷◌, ◌++◌, ◌==◌,
  if◌then◌else◌, All, Bool-cases, ◌⊎◌, inl, inr, eq_iff, eq_refl, arith, All-front,
}
use warden_demo_workload.Common.Constants.{dispatch_id}
use warden_demo_workload.Common.Models.{Degradation, no_degradation, fresh_region}
use warden_demo_workload.Python.Value.{Value, null, Conversions, Result, ok, raised, truthy}
use warden_demo_workload.Control.Schema.{Scenarios, entity_history}
use warden_demo_workload.Control.Cache.{is_enabled, get_params}
use warden_demo_workload.Generator.Relay
use warden_demo_workload.Generator.Relay.{
  Call, Relay, entity_of, region_of, degradation_of, degrade, moved_from, reset_region,
  control_tick, control_loop, unless_died,
}
use warden_demo_workload.Generator.Relay.Regions.{
  ComparesText, IsRegion, IsOnlyHere, land, healthy, land-append, control_loop-IsOnlyHere,
}
use warden_demo_workload.Workflows.Dispatch
use warden_demo_workload.Workflows.Dispatch.{Dispatch, Activation, begin}
use warden_demo_workload.Workflows.Dispatch.Flags.{
  all_degradations, last_of, begin-degr, lifetime-degr,
}
use warden_demo_workload.Workflows.Dispatch.Lifetime.{lifetime, begin-Conserves}

-- The degradations that the relay has sent to a workflow, in order.
abbrev pub sent_to : String → List Call → List Degradation
sent_to id [] = []
sent_to id ((target, g) ∷ calls) =
    let rest = sent_to id calls in if target == id then g ∷ rest else rest

-- The health after the signals have landed is the last that was sent.
land-last_of :
    (calls : List Call) (h : String → Degradation) (id : String)
    → land calls h id ≡ last_of (sent_to id calls) (h id)
land-last_of [] h id = refl
land-last_of ((target, g) ∷ calls) h id = elim (Bool-cases (target == id)) [
  | inl here ↦ land-last_of calls (λ i. if target == i then g else h i) id ∙ rw here refl
  | inr other ↦ land-last_of calls (λ i. if target == i then g else h i) id ∙ rw other refl
]

-- The last signal is what lands at its target.
land-here :
    (calls : List Call) (target : String) (g : Degradation) (h : String → Degradation) (id : String)
    → (target == id) ≡ true
    → land (calls ++ (target, g) ∷ []) h id ≡ g
land-here calls target g h id same = land-append calls ((target, g) ∷ []) h id ∙ rw same refl

-- A region that has been sent what the relay sent to it runs by what has landed.
lifetime-land :
    (region : String) (calls : List Call) (activations : List Activation)
    → all_degradations activations ≡ sent_to (dispatch_id region) calls
    → (lifetime activations (begin (fresh_region region) Dispatch.init).0).0.fields.degr
      ≡ land calls healthy (dispatch_id region)
lifetime-land region calls activations delivered =
    lifetime-degr activations (begin (fresh_region region) Dispatch.init).0
      (begin-Conserves (fresh_region region)).1
    ∙ ap (last_of (all_degradations activations)) (begin-degr (fresh_region region))
    ∙ ap (λ gs. last_of gs no_degradation) delivered
    ∙ sym (land-last_of calls healthy (dispatch_id region))

module _ (cv : Conversions) where
  unless_died-alive :
      (died : Bool) (old new : Relay)
      → old.died ≡ died
      → (unless_died cv died old new).died ≡ false
      → unless_died cv died old new ≡ new
  unless_died-alive true old new e h = cc (e, h)
  unless_died-alive false old new e h = refl

  -- The loop that goes on after its last reading ends with the turn on it.
  last_turn :
      (readings : List Scenarios) (s : Scenarios) (r : Relay)
      → (control_loop cv (readings ++ s ∷ []) r).died ≡ false
      → control_loop cv (readings ++ s ∷ []) r ≡ control_tick cv s (control_loop cv readings r)
  unfolding control_loop
  last_turn [] s r h = unless_died-alive r.died r (control_tick cv s r) refl h
  last_turn (t ∷ readings) s r h =
      last_turn readings s (unless_died cv r.died r (control_tick cv t r)) h

  -- What each entity's health comes to by the scenarios: the fault's, in its region, if it is on.
  pub data Outcome (s : Scenarios) (id : String) (g : Degradation) : Type 0 where
    off : is_enabled s entity_history ≡ false → g ≡ no_degradation → Outcome s id g
    here :
        is_enabled s entity_history ≡ true
        → id ≡ entity_of cv (region_of cv s)
        → degradation_of cv (get_params s entity_history) ≡ ok g
        → Outcome s id g
    elsewhere :
        is_enabled s entity_history ≡ true
        → ¬ (id ≡ entity_of cv (region_of cv s))
        → g ≡ no_degradation
        → Outcome s id g

  -- Without a region that is degraded, every entity is healthy.
  none_degraded :
      (region : Value) (h : String → Degradation) (id : String)
      → IsOnlyHere cv region h
      → truthy region ≡ false
      → h id ≡ no_degradation
  none_degraded region h id only_here none = elim (only_here.only id) [
    | inl well ↦ well
    | inr (given, mine) ↦ absurd (ground (arith, given, none))
  ]

  degrade-Outcome :
      (s : Scenarios) (r : Relay) (resets : List Call) (result : Result Degradation) (id : String)
      → is_enabled s entity_history ≡ true
      → degradation_of cv (get_params s entity_history) ≡ result
      → let r' = degrade cv (region_of cv s) r resets result in
        IsOnlyHere cv r'.degraded_region (land r'.sent healthy)
        → r'.died ≡ false
        → Outcome s id (land r'.sent healthy id)
  degrade-Outcome s r resets (raised e) id on asked only_here alive = cc alive
  degrade-Outcome s r resets (ok g) id on asked only_here alive =
      let entity : String = entity_of cv (region_of cv s) in
      elim (Bool-cases (entity == id)) [
        | inl same ↦
            here on (sym ((eq_iff entity id).0 same))
              (asked ∙ ap ok (sym (land-here (r.sent ++ resets) entity g healthy id same)))
        | inr other ↦ elim (only_here.only id) [
          | inl well ↦ elsewhere on (λ e. ground (arith, other, e, eq_refl entity)) well
          | inr (given, mine) ↦ absurd (ground (arith, other, mine, eq_refl entity))
        ]
      ]

  control_tick-Outcome :
      (s : Scenarios) (r : Relay) (id : String)
      → IsOnlyHere cv r.degraded_region (land r.sent healthy)
      → let r' = control_tick cv s r in
        IsOnlyHere cv r'.degraded_region (land r'.sent healthy)
        → r'.died ≡ false
        → Outcome s id (land r'.sent healthy id)
  unfolding control_tick
  control_tick-Outcome s r id before only_here alive =
      elim (Bool-cases (is_enabled s entity_history)) [
        | inl on ↦ rw on (
            degrade-Outcome s r (moved_from cv r.degraded_region (region_of cv s))
              (degradation_of cv (get_params s entity_history)) id on refl (rw on at only_here)
              (rw on at alive))
        | inr off_now ↦ elim (Bool-cases (truthy r.degraded_region)) [
          | inl held ↦
              rw (off_now, held)
                (off off_now (
                  none_degraded null (land (r.sent ++ reset_region cv r.degraded_region) healthy) id
                    (rw (off_now, held) at only_here) refl))
          | inr none ↦
              rw (off_now, none)
                (off off_now (none_degraded r.degraded_region (land r.sent healthy) id before none))
        ]
      ]

  -- While no exception has ended the relay's loop, and each reading of the scenarios names a region
  -- by a string that is not empty, which `==` tells apart: a region that starts healthy and is sent
  -- the relay's signals, each once and in order, runs by what the last reading says, whatever its
  -- other signals are and however often it continues as new, if each run of the chain begins before
  -- it handles its signals. If the fault is off, it is healthy; if the fault is on, it runs by the
  -- fault's parameters when it is the fault's region, and is healthy when it is not.
  pub lifetime-Outcome :
      (readings : List Scenarios) (s : Scenarios) (region : String) (activations : List Activation)
      → ComparesText cv
      → All (λ t. IsRegion (region_of cv t)) (readings ++ s ∷ [])
      → (control_loop cv (readings ++ s ∷ []) Relay.init).died ≡ false
      → all_degradations activations
        ≡ sent_to (dispatch_id region) (control_loop cv (readings ++ s ∷ []) Relay.init).sent
      → let (e, commands) = lifetime activations (begin (fresh_region region) Dispatch.init).0 in
        Outcome s (dispatch_id region) e.fields.degr
  lifetime-Outcome readings s region activations compares regions alive delivered =
      let r : Relay = control_loop cv readings Relay.init in
      let last : control_loop cv (readings ++ s ∷ []) Relay.init ≡ control_tick cv s r =
        last_turn readings s Relay.init alive in
      let before : IsOnlyHere cv r.degraded_region (land r.sent healthy) =
        control_loop-IsOnlyHere cv compares readings
          (All-front (λ t. IsRegion (region_of cv t)) readings (s ∷ []) regions) in
      let after = control_loop-IsOnlyHere cv compares (readings ++ s ∷ []) regions in
      subst (Outcome s (dispatch_id region))
        (ap (λ x. land x.sent healthy (dispatch_id region)) (sym last)
          ∙ sym (lifetime-land region _ activations delivered))
        (control_tick-Outcome s r (dispatch_id region) before
          (subst (λ x. IsOnlyHere cv x.degraded_region (land x.sent healthy)) last after)
          (subst (λ x. x.died ≡ false) last alive))
