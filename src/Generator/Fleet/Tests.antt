-- ===== src/Generator/Fleet/Tests.antt =====
-- `courier_loop` on concrete draws and answers.
use warden_demo_workload.Prelude.{◌≡◌, some, List, [], ◌∷◌, arith}
use warden_demo_workload.Prelude.Int.{pos}
use warden_demo_workload.Generator.Fleet.{
  StartOutcome, started, already_started, failed, Hire, Tick, Fleet, init, bring_up, courier_loop,
}
use warden_demo_workload.Generator.Fleet.Growth.{BringUp, bring_up-BringUp}
use warden_demo_workload.Generator.Fleet.Decline.{IsFleet, courier_loop-IsFleet}

abbrev hire : StartOutcome → Hire
hire o = record { suffix = "0a1b2c"; region = "us-west"; vehicle = "bike"; outcome = o }

-- Three starts, one of which fails, for a fleet of two.
abbrev hires : List Hire
hires = hire started ∷ hire failed ∷ hire already_started ∷ []

abbrev turn : StartOutcome → Tick
turn o = record {
  fractions = λ n. (n, 500000);
  chance = pos 400000;
  pick = 7;
  order = "ab12cd34";
  hire = hire o;
}

-- Four turns: the oldest courier is sent home, and its replacement does not start.
abbrev ticks : List Tick
ticks = turn started ∷ turn started ∷ turn started ∷ turn failed ∷ []

bring_up-BringUp_example : BringUp (pos 2) hires init (bring_up (pos 2) hires init)
bring_up-BringUp_example = bring_up-BringUp (pos 2) hires init

courier_loop-IsFleet_example :
    (f : Fleet) × (courier_loop (pos 2) hires ticks init ≡ some f) × IsFleet (pos 2) ticks f
courier_loop-IsFleet_example = courier_loop-IsFleet (pos 2) hires ticks (omega arith)
