-- ===== src/Python/Dict.antt =====
-- A Python `dict` with string keys, in insertion order.
use warden_demo_workload.Prelude.{
  String, ◌≡◌, refl, Option, none, some, List, [], ◌∷◌, arith, ◌==◌, eq_iff, if◌then◌else◌,
}

abbrev pub Dict {ℓ} : Type ℓ → Type ℓ
Dict V = List (String × V)

module _ {ℓ} {V : Type ℓ} where
  -- `d.get(k)`
  unfoldable pub get : Dict V → String → Option V
  get [] k = none
  get ((j, v) ∷ d) k = if j == k then some v else get d k

  -- `d[k] = v`: an old key keeps its place, and a new one comes last.
  unfoldable pub put : Dict V → String → V → Dict V
  put [] k v = (k, v) ∷ []
  put ((j, w) ∷ d) k v = if j == k then (j, v) ∷ d else (j, w) ∷ put d k v

  -- `d.update(e)`
  unfoldable pub update : Dict V → Dict V → Dict V
  update d [] = d
  update d ((k, v) ∷ e) = update (put d k v) e

  -- No key is listed twice.
  abbrev pub IsDict : Dict V → Type ℓ
  IsDict [] = Unit
  IsDict ((k, v) ∷ d) = (get d k ≡ none) × IsDict d

  pub get-put :
      (d : Dict V) (k j : String) (v : V) → get (put d k v) j ≡ (if k == j then some v else get d j)
  unfolding get put
  get-put [] k j v = refl
  get-put ((i, w) ∷ d) k j v = ground (arith, eq_iff k j, eq_iff i k, eq_iff i j, get-put d k j v)

  pub put-IsDict : (d : Dict V) (k : String) (v : V) → IsDict d → IsDict (put d k v)
  unfolding put get
  put-IsDict [] k v h = (refl, tt)
  put-IsDict ((i, w) ∷ d) k v h =
      ground (arith, put-IsDict d k v h.1, get-put d k i v, eq_iff k i, eq_iff i k)

  pub update-IsDict : (d e : Dict V) → IsDict d → IsDict (update d e)
  unfolding update
  update-IsDict d [] h = h
  update-IsDict d ((k, v) ∷ e) h = update-IsDict (put d k v) e (put-IsDict d k v h)

  -- The new entries win.
  abbrev pub first_some : Option V → Option V → Option V
  first_some (some v) o = some v
  first_some none o = o

  pub get-update :
      (d e : Dict V) (j : String) → IsDict e → get (update d e) j ≡ first_some (get e j) (get d j)
  unfolding update get
  get-update d [] j h = refl
  get-update d ((k, v) ∷ e) j h =
      ground (arith, get-update (put d k v) e j h.1, get-put d k j v, eq_iff k j)
