-- ===== src/Generator/Relay/Regions.antt =====
-- Which regions the relay leaves degraded (generator.py).
use warden_demo_workload.Prelude.{
  String, ◌≡◌, refl, sym, ◌∙◌, Bool, true, false, List, [], ◌∷◌, ◌++◌, ◌==◌, if◌then◌else◌, All,
  arith, eq_iff, eq_refl, Bool-cases, inl, inr, ◌⊎◌,
}
use warden_demo_workload.Common.Models.{Degradation, no_degradation}
use warden_demo_workload.Python.Value.{Value, null, str, Conversions, truthy, Result, ok, raised}
use warden_demo_workload.Control.Schema.{Scenarios, entity_history}
use warden_demo_workload.Control.Cache.{is_enabled}
use warden_demo_workload.Generator.Relay.{
  Call, Relay, init, entity_of, region_of, reset_region, moved_from, degrade, control_tick,
  control_loop, unless_died,
}

-- The health of each entity, by its id, after the signals have arrived in order.
abbrev pub land : List Call → (String → Degradation) → String → Degradation
land [] h id = h id
land ((target, g) ∷ calls) h id = land calls (λ i. if target == i then g else h i) id

abbrev pub healthy : String → Degradation
healthy id = no_degradation

pub land-append :
    (xs ys : List Call) (h : String → Degradation) (id : String)
    → land (xs ++ ys) h id ≡ land ys (land xs h) id
land-append [] ys h id = refl
land-append ((target, g) ∷ xs) ys h id = land-append xs ys _ id

-- What `==` promises on two strings.
abbrev pub ComparesText : Conversions → Type 0
ComparesText cv = (s t : String) → cv.equal (str s) (str t) ≡ true → s ≡ t

-- A region as the scenario has it: a string that is not empty.
pub record IsRegion (v : Value) : Type 0 where
  pub name : String
  pub named : v ≡ str name
  pub given : truthy v ≡ true

-- No region or a region, and no entity but its own is degraded.
pub record IsOnlyHere (cv : Conversions) (region : Value) (h : String → Degradation) : Type 0 where
  pub kind : (truthy region ≡ false) ⊎ IsRegion region
  pub only :
      (id : String)
      → (h id ≡ no_degradation) ⊎ ((truthy region ≡ true) × (id ≡ entity_of cv region))

module _ (cv : Conversions) (compares : ComparesText cv) where
  reset_only :
      (region : Value) (h : String → Degradation) (id : String)
      → IsOnlyHere cv region h
      → land (reset_region cv region) h id ≡ no_degradation
  unfolding reset_region
  reset_only region h id here = elim (Bool-cases (entity_of cv region == id)) [
    | inl same ↦ rw same refl
    | inr other ↦ elim (here.only id) [
      | inl well ↦ rw other well
      | inr (given, mine) ↦ absurd (ground (arith, other, mine, eq_refl id))
    ]
  ]

  -- After the signal, only the new region's entity is degraded.
  degrade_only :
      (region : Value) (g : Degradation) (h : String → Degradation)
      → IsRegion region
      → ((id : String) → (h id ≡ no_degradation) ⊎ (id ≡ entity_of cv region))
      → IsOnlyHere cv region (land ((entity_of cv region, g) ∷ []) h)
  degrade_only region g h is_region only = record {
    kind = inr is_region;
    only = λ id. elim (Bool-cases (entity_of cv region == id)) [
      | inl same ↦ inr (is_region.given, sym ((eq_iff (entity_of cv region) id).0 same))
      | inr other ↦ elim (only id) [
        | inl well ↦ inl (rw other well)
        | inr mine ↦ inr (is_region.given, mine)
      ]
    ];
  }

  equal_entities :
      (old region : Value)
      → IsRegion old
      → IsRegion region
      → cv.equal old region ≡ true
      → entity_of cv old ≡ entity_of cv region
  equal_entities old region a b e =
      let names : a.name ≡ b.name = compares a.name b.name (rw (a.named, b.named) at e) in
      rw (a.named, b.named, names) refl

  -- After the resets, the entities that are degraded are the new region's.
  moved_only :
      (old region : Value) (h : String → Degradation)
      → IsOnlyHere cv old h
      → IsRegion region
      → (id : String)
      → (land (moved_from cv old region) h id ≡ no_degradation) ⊎ (id ≡ entity_of cv region)
  unfolding moved_from
  moved_only old region h here is_region id = elim (Bool-cases (truthy old)) [
    | inr none_old ↦ elim (here.only id) [
      | inl well ↦ simp none_old (inl well)
      | inr (given, mine) ↦ absurd (ground (arith, given, none_old))
    ]
    | inl some_old ↦ elim (Bool-cases (cv.equal old region)) [
      | inr moved ↦ simp (some_old, moved) (inl (reset_only old h id here))
      | inl stays ↦
          simp (some_old, stays)
            (elim (here.only id) [
              | inl well ↦ inl well
              | inr (given, mine) ↦ elim here.kind [
                | inl none_old ↦ absurd (ground (arith, given, none_old))
                | inr was ↦ inr (mine ∙ equal_entities old region was is_region stays)
              ]
            ])
    ]
  ]

  -- The relay's region is the only one whose entity its signals have left degraded.
  abbrev Tracks : Relay → Type 0
  Tracks r = IsOnlyHere cv r.degraded_region (land r.sent healthy)

  IsOnlyHere-land :
      (region : Value) (xs ys : List Call) (h : String → Degradation)
      → IsOnlyHere cv region (land ys (land xs h))
      → IsOnlyHere cv region (land (xs ++ ys) h)
  IsOnlyHere-land region xs ys h here = record {
    kind = here.kind;
    only = λ id. rw (land-append xs ys h id) (here.only id);
  }

  moved-Tracks :
      (r : Relay) (region : Value)
      → Tracks r
      → IsRegion region
      → IsOnlyHere cv r.degraded_region
          (land (moved_from cv r.degraded_region region) (land r.sent healthy))
  unfolding moved_from
  moved-Tracks r region here is_region = elim (Bool-cases (truthy r.degraded_region)) [
    | inr none_old ↦ simp none_old here
    | inl some_old ↦ elim (Bool-cases (cv.equal r.degraded_region region)) [
      | inl stays ↦ simp (some_old, stays) here
      | inr moved ↦
          simp (some_old, moved)
            (record { kind = here.kind; only = λ id. inl (reset_only r.degraded_region _ id here) })
    ]
  ]

  degrade-Tracks :
      (region : Value) (r : Relay) (g : Result Degradation)
      → Tracks r
      → IsRegion region
      → Tracks (degrade cv region r (moved_from cv r.degraded_region region) g)
  degrade-Tracks region r (raised e) here is_region =
      IsOnlyHere-land r.degraded_region r.sent _ healthy (moved-Tracks r region here is_region)
  degrade-Tracks region r (ok g) here is_region =
      let resets : List Call = moved_from cv r.degraded_region region in
      IsOnlyHere-land region (r.sent ++ resets) ((entity_of cv region, g) ∷ []) healthy (
        degrade_only region g (land (r.sent ++ resets) healthy) is_region (λ id.
          rw (land-append r.sent resets healthy id)
            (moved_only r.degraded_region region (land r.sent healthy) here is_region id)))

  control_tick-Tracks :
      (scenarios : Scenarios) (r : Relay)
      → IsRegion (region_of cv scenarios)
      → Tracks r
      → Tracks (control_tick cv scenarios r)
  unfolding control_tick
  control_tick-Tracks scenarios r is_region here =
      elim (Bool-cases (is_enabled scenarios entity_history)) [
        | inl on ↦ rw on (degrade-Tracks (region_of cv scenarios) r _ here is_region)
        | inr off ↦ elim (Bool-cases (truthy r.degraded_region)) [
          | inr none_old ↦ rw (off, none_old) here
          | inl some_old ↦
              rw (off, some_old)
                (IsOnlyHere-land null r.sent _ healthy (record {
                  kind = inl refl;
                  only = λ id. inl (reset_only r.degraded_region _ id here);
                }))
        ]
      ]

  unless_died-Tracks :
      (died : Bool) (old new : Relay)
      → Tracks old
      → Tracks new
      → Tracks (unless_died cv died old new)
  unless_died-Tracks true old new h k = h
  unless_died-Tracks false old new h k = k

  control_loop-Tracks :
      (readings : List Scenarios) (r : Relay)
      → All (λ s. IsRegion (region_of cv s)) readings
      → Tracks r
      → Tracks (control_loop cv readings r)
  unfolding control_loop
  control_loop-Tracks [] r regions here = here
  control_loop-Tracks (s ∷ readings) r (region, regions) here =
      control_loop-Tracks readings _ regions
        (unless_died-Tracks r.died r _ here (control_tick-Tracks s r region here))

  -- Whatever readings of the scenarios the relay goes through from its start, as long as each names a
  -- region by a string that is not empty, and `==` tells strings apart: once its signals have arrived
  -- in order, no entity is degraded but that of the region it holds as degraded, and none at all
  -- when it holds no region. An exception in a turn changes nothing about that.
  pub control_loop-IsOnlyHere :
      (readings : List Scenarios)
      → All (λ s. IsRegion (region_of cv s)) readings
      → let r = control_loop cv readings init in
        IsOnlyHere cv r.degraded_region (land r.sent healthy)
  control_loop-IsOnlyHere readings regions =
      control_loop-Tracks readings init regions (record { kind = inl refl; only = λ id. inl refl })
