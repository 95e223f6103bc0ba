-- ===== src/Generator/Entities/Reference.antt =====
-- A server that meets the interface of Generator/Entities.antt: the open executions by their ids.
use warden_demo_workload.Prelude.{◌≡◌, refl, String, Bool, true, false, List, ◌∷◌, eq_refl, arith}
use warden_demo_workload.Workers.Supervisor.{is_in}
use warden_demo_workload.Generator.Fleet.{StartOutcome, started, already_started}
use warden_demo_workload.Generator.Entities.{Cluster}

abbrev pub answer : Bool → String → List String → StartOutcome × List String
answer true id open_ids = (already_started, open_ids)
answer false id open_ids = (started, id ∷ open_ids)

pub answer-opens :
    (b : Bool) (id : String) (s : List String) → is_in id s ≡ b → is_in id (answer b id s).1 ≡ true
answer-opens true id s e = e
answer-opens false id s e = rw (eq_refl id) refl

pub answer-keeps :
    (b : Bool) (id : String) (s : List String) (j : String)
    → is_in j s ≡ true
    → is_in j (answer b id s).1 ≡ true
answer-keeps true id s j h = h
answer-keeps false id s j h = ground (arith, h)

-- No start is answered with another error.
abbrev pub reference_cluster : Cluster
reference_cluster = record {
  State = List String;
  is_open = λ s id. is_in id s;
  start = λ e s. answer (is_in e.id s) e.id s;
  start-opens = λ e s h. answer-opens (is_in e.id s) e.id s refl;
  start-keeps = λ e s id h. answer-keeps (is_in e.id s) e.id s id h;
}
