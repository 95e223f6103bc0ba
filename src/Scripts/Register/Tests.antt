-- ===== src/Scripts/Register/Tests.antt =====
-- A dry run in a concrete environment.
use warden_demo_workload.Prelude.{eq_iff, ◌≡◌, refl, true, false, none, [], ◌∷◌, All, map}
use warden_demo_workload.Prelude.Int.{pos}
use warden_demo_workload.Common.Config.Reference.{any_number, settings, loaded, settings_load}
use warden_demo_workload.Common.SearchAttributes.{all_keys}
use warden_demo_workload.Scripts.Register.{attribute_specs, main}
use warden_demo_workload.Scripts.Register.Masking.{Hides, main-dry_run}

main-dry_run_example :
    let r = main any_number settings true false (λ cmd. pos 0) in
    (r.ran ≡ none) × All (Hides "secret") r.printed
main-dry_run_example =
    main-dry_run any_number settings false (λ cmd. pos 0) loaded "secret" settings_load refl
      (λ e. cc ((eq_iff "secret" "***").1 e)) (λ e. cc ((eq_iff "secret" "").1 e))

-- The names, sorted.
test_sorted :
    map (λ s. s.0) (attribute_specs all_keys)
    ≡ "BatchMode" ∷ "CourierId" ∷ "CourierPayoutUsd" ∷ "DeliveryNotes" ∷ "DeliveryRegion"
      ∷ "DietaryTags" ∷ "FanoutSize" ∷ "FleetStatus" ∷ "IsSurgePricing" ∷ "OrderStage"
      ∷ "OrderValueUsd" ∷ "PendingOrderCount" ∷ "PriorityTier" ∷ "PromisedDeliveryAt"
      ∷ "RestaurantId" ∷ "VehicleType" ∷ []
unfolding attribute_specs
test_sorted = refl
