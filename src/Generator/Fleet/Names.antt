-- ===== src/Generator/Fleet/Names.antt =====
-- The names of the couriers that `courier_loop` starts (generator.py).
use Prim.Native.String.{◌++◌ as ◌⧺◌}
use text.Mathlib.TextLemmas.{append_cancel_left}
use warden_demo_workload.Prelude.{
  subst, ℕ, suc, ◌≤◌, ◌≡◌, refl, sym, ap, ◌∙◌, String, some, List, [], ◌∷◌, ◌++◌, All, All-append,
  IsDistinct, Bool-cases, inl, inr, arith, append-nil,
}
use warden_demo_workload.Prelude.Int.{ℤ}
use warden_demo_workload.Common.Constants.{courier_id, show}
use warden_demo_workload.Common.Constants.Numerals.{show_dash-injective}
use warden_demo_workload.Generator.Fleet.{
  StartOutcome, started, already_started, failed, Hire, Tick, Fleet, new_id, short_of,
  start_courier, retire, dismissed, chatted, tick, tick_from, is_fourth, bring_up, ping_all,
  hand_out,
}
use warden_demo_workload.Generator.Fleet.Shifts.{
  added, enrolled, enrolled-append, ping_all-IsIdle, hand_out-IsIdle,
}

-- A courier's workflow, of a number up to `seq`.
abbrev IsNumbered : ℕ → String → Type 0
IsNumbered seq id = (k : ℕ) × (s : String) × (k ≤ seq) × (id ≡ courier_id (new_id k s))

-- The workflows of the fleet's couriers so far: numbered up to `seq`, and no two the same.
pub record AreNew (seq : ℕ) (ids : List String) : Type 0 where
  pub numbered : All (IsNumbered seq) ids
  pub distinct : IsDistinct ids

new_id-injective :
    (m n : ℕ) (s t : String) → courier_id (new_id m s) ≡ courier_id (new_id n t) → m ≡ n
unfolding courier_id new_id
new_id-injective m n s t same =
    show_dash-injective m n s t
      (append_cancel_left "courier-" (show m ⧺ "-" ⧺ s) (show n ⧺ "-" ⧺ t) same)

later-IsNumbered :
    (seq : ℕ) (ids : List String) → All (IsNumbered seq) ids → All (IsNumbered (suc seq)) ids
later-IsNumbered seq [] h = tt
later-IsNumbered seq (id ∷ ids) ((k, s, le, same), hs) =
    ((k, s, omega (arith, le), same), later-IsNumbered seq ids hs)

-- The next number gives a name that is not among them.
next-differs :
    (seq : ℕ) (ids : List String) (s : String)
    → All (IsNumbered seq) ids
    → All (λ id. ¬ (id ≡ courier_id (new_id (suc seq) s))) ids
next-differs seq [] s h = tt
next-differs seq (id ∷ ids) s ((k, s', le, same), hs) = (
  λ e. omega (arith, le, new_id-injective k (suc seq) s' s (sym same ∙ e)),
  next-differs seq ids s hs,
)

append-IsDistinct :
    (ids : List String) (id : String)
    → IsDistinct ids
    → All (λ x. ¬ (x ≡ id)) ids
    → IsDistinct (ids ++ id ∷ [])
append-IsDistinct [] id h differ = (tt, tt)
append-IsDistinct (x ∷ ids) id (h, hs) (d, ds) =
    (All-append (λ y. ¬ (x ≡ y)) ids (id ∷ []) h (d, tt), append-IsDistinct ids id hs ds)

next-AreNew :
    (seq : ℕ) (s : String) (ids : List String)
    → AreNew seq ids
    → AreNew (suc seq) (ids ++ courier_id (new_id (suc seq) s) ∷ [])
next-AreNew seq s ids h = record {
  numbered =
      All-append (IsNumbered (suc seq)) ids _ (later-IsNumbered seq ids h.numbered)
        ((suc seq, s, omega arith, refl), tt);
  distinct = append-IsDistinct ids _ h.distinct (next-differs seq ids s h.numbered);
}

start-AreNew :
    (o : StartOutcome) (seq : ℕ) (s : String) (ids : List String)
    → AreNew seq ids
    → AreNew (suc seq) (ids ++ added o (courier_id (new_id (suc seq) s)))
start-AreNew started seq s ids h = next-AreNew seq s ids h
start-AreNew already_started seq s ids h = next-AreNew seq s ids h
start-AreNew failed seq s ids h =
    rw append-nil (record { numbered = later-IsNumbered seq ids h.numbered; distinct = h.distinct })

-- The fleet has started each courier once.
abbrev pub HasNew : Fleet → Type 0
HasNew f = AreNew f.courier_seq (enrolled f.sent)

start_courier-HasNew : (h : Hire) (f : Fleet) → HasNew f → HasNew (start_courier h f)
unfolding start_courier
start_courier-HasNew h f new =
    rw (enrolled-append, append-nil)
      (subst (λ n. AreNew n (enrolled f.sent ++ added h.outcome (courier_id (new_id n h.suffix))))
        (omega arith) (start-AreNew h.outcome f.courier_seq h.suffix (enrolled f.sent) new))

chatted-HasNew : (t : Tick) (f : Fleet) → HasNew f → HasNew (chatted t f)
chatted-HasNew t f new =
    let pings = ping_all-IsIdle t.fractions f.couriers in
    let jobs = hand_out-IsIdle t f.couriers in
    subst (AreNew f.courier_seq)
      (sym (
        enrolled-append (f.sent ++ ping_all t.fractions f.couriers) (hand_out t f.couriers)
        ∙ ap (λ ids. enrolled (f.sent ++ ping_all t.fractions f.couriers) ++ ids) jobs.1
        ∙ append-nil _
        ∙ enrolled-append f.sent (ping_all t.fractions f.couriers)
        ∙ ap (λ ids. enrolled f.sent ++ ids) pings.1
        ∙ append-nil _))
      new

retire-HasNew :
    (h : Hire) (couriers : List String) (f : Fleet) → HasNew f → HasNew (retire h couriers f)
unfolding retire
retire-HasNew h [] f new = new
retire-HasNew h (old ∷ couriers) f new =
    start_courier-HasNew h (dismissed old couriers f)
      (subst (AreNew f.courier_seq) (sym (enrolled-append f.sent _ ∙ append-nil _)) new)

tick-HasNew : (n : ℕ) (t : Tick) (f : Fleet) → HasNew f → HasNew (tick n t f)
unfolding tick
tick-HasNew n t f new = elim (Bool-cases (is_fourth n)) [
  | inl fourth ↦ rw fourth (retire-HasNew t.hire f.couriers (chatted t f) (chatted-HasNew t f new))
  | inr other ↦ rw other (chatted-HasNew t f new)
]

pub tick_from-HasNew :
    (n : ℕ) (ticks : List Tick) (f : Fleet) → HasNew f → HasNew (tick_from n ticks f)
unfolding tick_from
tick_from-HasNew n [] f new = new
tick_from-HasNew n (t ∷ ticks) f new =
    tick_from-HasNew (suc n) ticks (tick (suc n) t f) (tick-HasNew (suc n) t f new)

pub bring_up-HasNew :
    (size : ℤ) (hires : List Hire) (f f' : Fleet)
    → HasNew f
    → bring_up size hires f ≡ some f'
    → HasNew f'
unfolding bring_up
bring_up-HasNew size [] f f' new e = elim (Bool-cases (short_of size f.couriers)) [
  | inl short ↦ cc (rw short at e)
  | inr full ↦
      let same : some f ≡ some f' = rw full at e in let e' : f ≡ f' = cc same in subst HasNew e' new
]
bring_up-HasNew size (h ∷ hires) f f' new e = elim (Bool-cases (short_of size f.couriers)) [
  | inl short ↦
      bring_up-HasNew size hires (start_courier h f) f' (start_courier-HasNew h f new)
        (rw short at e)
  | inr full ↦
      let same : some f ≡ some f' = rw full at e in let e' : f ≡ f' = cc same in subst HasNew e' new
]
