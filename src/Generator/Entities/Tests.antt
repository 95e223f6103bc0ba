-- ===== src/Generator/Entities/Tests.antt =====
-- The keepalive loop on a concrete server.
use warden_demo_workload.Prelude.{List, [], ◌∷◌, String}
use warden_demo_workload.Generator.Entities.{entity_keepalive_loop}
use warden_demo_workload.Generator.Entities.Keepalive.{entity_ids, Ends, entity_keepalive_loop-Ends}
use warden_demo_workload.Generator.Entities.Reference.{reference_cluster}

-- All are terminated before the first round, and nothing happens before the second.
abbrev terminate_all : List String → List String
terminate_all s = []

abbrev nothing : List String → List String
nothing s = s

entity_keepalive_loop-Ends_example :
    Ends reference_cluster entity_ids (
      entity_keepalive_loop reference_cluster
        (terminate_all ∷ nothing ∷ [])
        ("dispatch-south" ∷ []))
entity_keepalive_loop-Ends_example =
    entity_keepalive_loop-Ends reference_cluster terminate_all (nothing ∷ [])
      ("dispatch-south" ∷ [])
