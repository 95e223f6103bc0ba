-- ===== src/Workers/Supervisor/Tests.antt =====
-- A supervisor on the reference operating system.
use warden_demo_workload.Prelude.{[], ◌∷◌}
use warden_demo_workload.Workers.Supervisor.Standalone.{StandsAlone, run_standalone-StandsAlone}
use warden_demo_workload.Workers.Supervisor.Reference.{
  Machine, new_machine, prompt, prompt-IsPrompt, blackout,
}

-- Everything dies in the first sleep, and nothing in the second.
abbrev quiet_night : Machine → Machine
quiet_night m = m

run_standalone-StandsAlone_example : StandsAlone prompt (blackout ∷ quiet_night ∷ []) new_machine
run_standalone-StandsAlone_example =
    run_standalone-StandsAlone prompt (blackout ∷ quiet_night ∷ []) new_machine prompt-IsPrompt
