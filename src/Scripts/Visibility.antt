-- ===== src/Scripts/Visibility.antt =====
-- scripts/visibility_demo.py: the table of list filters, the choice by words, and the report. The
-- times are given as texts, and the server's answers are the environment.
pub mod Reports
mod Tests
use Prim.Native.String.{◌++◌ as ◌⧺◌}
use warden_demo_workload.Prelude.{
  ℕ, zero, suc, ◌+◌, ◌≡◌, refl, ◌∙◌, ap, String, Bool, true, false, ◌||◌, Option, none, some, List,
  [], ◌∷◌, ◌++◌, map, leb, if◌then◌else◌, Bool-cases, inl, inr,
}
use warden_demo_workload.Prelude.Int.{ℤ, pos}
use warden_demo_workload.Common.Config.{codes, lower, Env, Config, load_config, connect, Connect}
use warden_demo_workload.Python.Value.{Conversions, Result, ok, raised, PyError}

-- A label and its list filter.
abbrev pub Query : Type 0
Query = String × String

-- `QUERIES`, for the time of the run and the time ten minutes later.
unfoldable pub queries : String → String → List Query
queries now soon =
    ("Orders in flight right now", "WorkflowType = 'OrderWorkflow' AND ExecutionStatus = 'Running'")
    ∷ (
      "In-flight orders, by stage: awaiting a courier",
      "WorkflowType = 'OrderWorkflow' AND ExecutionStatus = 'Running' AND OrderStage = 'awaiting_courier'",
    )
    ∷ (
      "In-flight orders, by stage: on the road",
      "WorkflowType = 'OrderWorkflow' AND ExecutionStatus = 'Running' AND OrderStage = 'in_transit'",
    )
    ∷ (
      "Everything happening in us-west (any workflow type)",
      "DeliveryRegion = 'us-west' AND ExecutionStatus = 'Running'",
    )
    ∷ (
      "High-value premium orders still open",
      "PriorityTier = 'premium' AND OrderValueUsd > 75 AND ExecutionStatus = 'Running'",
    )
    ∷ ("Surge-priced orders", "IsSurgePricing = true AND ExecutionStatus = 'Running'")
    ∷ (
      "Allergen-relevant orders (KeywordList membership)",
      "DietaryTags IN ('contains-nuts', 'gluten-free') AND ExecutionStatus = 'Running'",
    )
    ∷ (
      "Contactless drop-offs (Text, word-level match)",
      "DeliveryNotes = 'door' AND ExecutionStatus = 'Running'",
    )
    ∷ (
      "One restaurant group's orders (Keyword prefix)",
      "RestaurantId STARTS_WITH 'rest-1' AND ExecutionStatus = 'Running'",
    )
    ∷ (
      "Orders already past their delivery promise",
      "WorkflowType = 'OrderWorkflow' AND ExecutionStatus = 'Running' AND PromisedDeliveryAt < '"
          ⧺ now ⧺ "'",
    )
    ∷ (
      "Orders due in the next 10 minutes (Datetime range)",
      "WorkflowType = 'OrderWorkflow' AND ExecutionStatus = 'Running' AND PromisedDeliveryAt BETWEEN '"
          ⧺ now ⧺ "' AND '" ⧺ soon ⧺ "'",
    )
    ∷ (
      "S2: dispatch regions reporting a degraded fleet",
      "WorkflowType = 'DispatchWorkflow' AND FleetStatus = 'degraded'",
    )
    ∷ (
      "S8: workflows created by a fan-out storm", "BatchMode = 'fanout_storm' AND FanoutSize > 100",
    )
    ∷ (
      "Courier shifts by vehicle: cars on the road",
      "WorkflowType = 'CourierShiftWorkflow' AND VehicleType = 'car' AND ExecutionStatus = 'Running'",
    )
    ∷ (
      "Settlements that paid a courier more than $4",
      "WorkflowType = 'SettlementWorkflow' AND CourierPayoutUsd > 4.0",
    )
    ∷ []

abbrev starts_with : List ℕ → List ℕ → Bool
starts_with [] text = true
starts_with (n ∷ word) [] = false
starts_with (n ∷ word) (m ∷ text) =
    if leb n m then (if leb m n then starts_with word text else false) else false

-- `word in text`, by code points.
abbrev contains : List ℕ → List ℕ → Bool
contains word [] = starts_with word []
contains word (m ∷ text) = if starts_with word (m ∷ text) then true else contains word text

abbrev any_in : List String → Query → Bool
unfolding lower
any_in [] q = false
any_in (t ∷ terms) (label, filter) =
    contains (lower (codes t)) (lower (codes label))
    || contains (lower (codes t)) (lower (codes filter))
    || any_in terms (label, filter)

-- `not terms or any(...)`
abbrev is_selected : List String → Query → Bool
unfolding any_in
is_selected [] q = true
is_selected (t ∷ terms) q = any_in (t ∷ terms) q

unfoldable pub select : List String → List Query → List Query
unfolding is_selected
select terms [] = []
select terms (q ∷ qs) = let rest = select terms qs in if is_selected terms q then q ∷ rest else rest

-- What a list call gives, workflow by workflow: it ends, or an exception comes.
pub data Listing : Type 0 where
  end fails : Listing
  entry : String → Listing → Listing

-- What a query meets: a count and a list, or an exception.
pub data Answer : Type 0 where
  counted : ℕ → Listing → Answer
  count_failed : Answer

pub data Line : Type 0 where
  title : String → Line
  filter_text : String → Line
  matching : ℕ → Line
  sampled : String → Line
  error no_match : Line

abbrev pub sample_ids : ℕ
sample_ids = 2

-- The loop over the list, with `shown` workflows printed.
unfoldable pub sample : ℕ → Listing → List Line
sample shown end = []
sample shown fails = error ∷ []
sample shown (entry id listing) =
    let rest = sample (shown + 1) listing in
    sampled id ∷ (if leb sample_ids (shown + 1) then [] else rest)

abbrev pub answered : Answer → List Line
unfolding sample
answered count_failed = error ∷ []
answered (counted n listing) = matching n ∷ sample 0 listing

-- The report of each query.
unfoldable pub report : (String → Answer) → List Query → List Line
unfolding answered
report answers [] = []
report answers ((label, filter) ∷ qs) =
    title label ∷ filter_text filter ∷ answered (answers filter) ++ report answers qs

-- How `main` ends: a return code with what it has printed, a setting that is no number, or no
-- connection.
pub data Ended : Type 0 where
  returned : ℕ → List Line → Ended
  bad_setting : PyError → Ended
  not_connected : Ended

abbrev after_connect : (String → Answer) → List Query → Option Connect → Ended
unfolding report
after_connect answers qs none = not_connected
after_connect answers qs (some c) = returned 0 (report answers qs)

abbrev after_config : (String → Answer) → List Query → Result Config → Ended
unfolding connect after_connect
after_config answers qs (raised e) = bad_setting e
after_config answers qs (ok config) = after_connect answers qs (connect config)

abbrev run_queries : Conversions → Env → (String → Answer) → List Query → Ended
unfolding load_config after_config
run_queries cv env answers [] = returned 1 (no_match ∷ [])
run_queries cv env answers (q ∷ qs) = after_config answers (q ∷ qs) (load_config cv env)

-- `main`, for its arguments.
unfoldable pub main : Conversions → Env → (String → Answer) → String → String → List String → Ended
unfolding queries select run_queries
main cv env answers now soon terms = run_queries cv env answers (select terms (queries now soon))
