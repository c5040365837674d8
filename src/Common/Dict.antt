-- ===== src/Common/Dict.antt =====
-- Python's `dict`, which keeps the order of insertion: an entry that is set again keeps its place.
use mathlib.Core.Path.{◌≡◌, refl}
use mathlib.Core.Logic.{◌⊎◌}
use mathlib.Core.Bool.{◌||◌}
use mathlib.Core.Option.{Option, none, some}
use mathlib.Core.List.{List, [], ◌∷◌, ◌++◌}
use native.Mathlib.Omega.{arith}
use deep_research_agent.Common.Tests.{if◌then◌else◌}
use deep_research_agent.Common.Classes.{Eq, ◌==◌, ==_sym}
use deep_research_agent.Common.Lists.{contains, IsDistinct}

module _ {ℓ κ} {K : Type κ} {V : Type ℓ} where
  abbrev pub keys : List (K × V) → List K
  keys [] = []
  keys ((k, v) ∷ d) = k ∷ keys d

  -- `list(d.values())`
  abbrev pub values : List (K × V) → List V
  values [] = []
  values ((k, v) ∷ d) = v ∷ values d

module _ {ℓ κ} {K : Type κ} {V : Type ℓ} ⦃e : Eq K⦄ where
  -- `d.get(k)`
  unfoldable pub get : K → List (K × V) → Option V
  get k [] = none
  get k ((j, v) ∷ d) = if j == k then some v else get k d

  -- `d[k] = v`
  unfoldable pub put : K → V → List (K × V) → List (K × V)
  put k v [] = (k, v) ∷ []
  put k v ((j, w) ∷ d) = if j == k then (j, v) ∷ d else (j, w) ∷ put k v d

  pub get-put :
      (k j : K) (v : V) (d : List (K × V))
      → get j (put k v d) ≡ (if k == j then some v else get j d)
  unfolding get put
  get-put k j v [] = refl
  get-put k j v ((i, w) ∷ d) =
      ground (arith, e.same_iff k j, e.same_iff i k, e.same_iff i j, get-put k j v d)

  -- Setting a key adds it to the keys at the end, or leaves them as they were.
  pub keys-put :
      (k : K) (v : V) (d : List (K × V))
      → keys (put k v d) ≡ (if contains k (keys d) then keys d else keys d ++ k ∷ [])
  unfolding put
  keys-put k v [] = refl
  keys-put k v ((j, w) ∷ d) = ground (arith, keys-put k v d)

  pub contains-keys-put :
      (k j : K) (v : V) (d : List (K × V))
      → contains j (keys (put k v d)) ≡ (k == j || contains j (keys d))
  unfolding put
  contains-keys-put k j v [] = refl
  contains-keys-put k j v ((i, w) ∷ d) =
      ground (arith, e.same_iff k j, e.same_iff i k, e.same_iff i j, contains-keys-put k j v d)

module _ {ℓ κ} {K : Type κ} {V : Type ℓ} ⦃e : Eq K⦄ where
  pub put-IsDistinct :
      (k : K) (v : V) (d : List (K × V)) → IsDistinct (keys d) → IsDistinct (keys (put k v d))
  unfolding put
  put-IsDistinct k v [] h = (refl, tt)
  put-IsDistinct k v ((j, w) ∷ d) h =
      ground (arith, put-IsDistinct k v d, contains-keys-put k j v d, ==_sym j k)

  -- What is found after a write is the value written, or was there before.
  pub get-put_cases :
      (k j : K) (v x : V) (d : List (K × V))
      → get j (put k v d) ≡ some x
      → (x ≡ v) ⊎ (get j d ≡ some x)
  get-put_cases k j v x d h = ground (arith, get-put k j v d)
