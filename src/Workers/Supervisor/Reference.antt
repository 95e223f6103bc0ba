-- ===== src/Workers/Supervisor/Reference.antt =====
-- An operating system that meets the interface of Workers/Supervisor.antt: processes by number, of
-- which some hang: those outlive both `terminate` and the moment of `kill`.
use warden_demo_workload.Prelude.{
  ℕ, ◌+◌, ◌≡◌, refl, Bool, true, false, not, ◌&&◌, ◌||◌, if◌then◌else◌, arith, zero, suc, ◌||◌,
}
use warden_demo_workload.Workers.Supervisor.{Os}
use warden_demo_workload.Workers.Supervisor.Stopping.{IsPrompt}

pub record Machine : Type 0 where
  pub next : ℕ
  pub living : ℕ → Bool

abbrev pub new_machine : Machine
new_machine = record { next = 0; living = λ p. false }

abbrev pub same : ℕ → ℕ → Bool
same zero zero = true
same zero (suc n) = false
same (suc m) zero = false
same (suc m) (suc n) = same m n

pub same_refl : (n : ℕ) → same n n ≡ true
same_refl zero = refl
same_refl (suc n) = same_refl n

abbrev pub spawn : Machine → Machine
spawn m = record { next = m.next + 1; living = λ q. if same m.next q then true else m.living q }

pub spawn-keeps : (m : Machine) (p : ℕ) → m.living p ≡ true → (spawn m).living p ≡ true
spawn-keeps m p h = ground (arith, h)

pub false_of_not : (b : Bool) → not b ≡ true → b ≡ false
false_of_not true h = cc h
false_of_not false h = refl

module _ (hangs : ℕ → Bool) where
  -- The processes without `p`, unless it hangs.
  abbrev pub without : ℕ → Machine → Machine
  without p m = record m { living = λ q. m.living q && (hangs q || not (same p q)) }

  pub without-dead : (p q : ℕ) (m : Machine) → m.living q ≡ false → (without p m).living q ≡ false
  without-dead p q m h = rw h refl

  abbrev pub reference_os : Os
  reference_os = record {
    Process = ℕ;
    World = Machine;
    alive = λ m p. m.living p;
    popen = λ args m. (m.next, spawn m);
    terminate = without;
    wait = λ p m. (not (m.living p), m);
    kill = λ p m. m;
    popen-alive = λ args m. rw (same_refl m.next) refl;
    popen-keeps = λ args m p. spawn-keeps m p;
    wait-exited = λ p m. false_of_not (m.living p);
    terminate-dead = without-dead;
    wait-dead = λ p q m h. h;
    kill-dead = λ p q m h. h;
  }

-- The one on which no process hangs.
abbrev pub prompt : Os
prompt = reference_os (λ p. false)

pub prompt-IsPrompt : IsPrompt prompt
prompt-IsPrompt p w = ground (arith, same_refl p)

-- Every process dies.
abbrev pub blackout : Machine → Machine
blackout m = record m { living = λ p. false }
