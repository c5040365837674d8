-- ===== src/Budget/Pools/Laws.antt =====
-- What the snapshot of the pools promises to a reader.
use deep_research_agent.Common.{
  ℕ, ◌+◌, ◌-◌, max, ◌<◌, ◌≡◌, ◌↔◌, Option, List, [], ◌∷◌, ◌++◌, map, arith, All,
}
use deep_research_agent.Common.Floats.{Floats}
use deep_research_agent.Common.Values.{
  Value, null, boolean, integer, float, text, sequence, mapping, Fields, end, lookup, or_default,
  Conversions,
}
use deep_research_agent.Budget.Pools.{
  ResourcePoolState, disabled, available, exhausted, released, PoolSpec, specs, ModelTokenPool,
  status_of, limit_of, committed_of, reserved_of, pool_of, model_pool_of, model_pools_of,
  append_pool, model_pools, pool_name, pools_if_mapping, raw_model_pools,
  build_resource_pool_snapshot,
}

-- A pool shown as available has a limit and something left; a released one has nothing left.
abbrev pub IsHonest : ResourcePoolState → Type 0
IsHonest p =
    (p.status ≡ available → (0 < p.limit) × (0 < p.remaining))
    × (p.status ≡ exhausted → (0 < p.limit) × (p.remaining ≡ 0))
    × (p.status ≡ released → p.remaining ≡ 0)

-- What is left is what the limit has beyond what is spent and held, and the status tells if it is
-- nothing.
abbrev pub IsBalanced : ResourcePoolState → Type 0
IsBalanced p =
    (p.remaining + p.committed + p.reserved ≡ max p.limit (p.committed + p.reserved))
    × ((p.status ≡ available) ↔ (0 < p.remaining))
    × ((p.status ≡ disabled) ↔ (p.limit ≡ 0))

All-++ : {A : Type 0} (P : A → Type 0) (xs ys : List A) → All P xs → All P ys → All P (xs ++ ys)
All-++ P [] ys h k = k
All-++ P (x ∷ xs) ys h k = (h.0, All-++ P xs ys h.1 k)

All-map :
    {A B : Type 0} (P : B → Type 0) (f : A → B)
    → ((x : A) → P (f x))
    → (xs : List A) → All P (map f xs)
All-map P f h [] = tt
All-map P f h (x ∷ xs) = (h x, All-map P f h xs)

honest :
    (l c r : ℕ)
    → let rest = l - c - r in
      (status_of l rest ≡ available → (0 < l) × (0 < rest))
      × (status_of l rest ≡ exhausted → (0 < l) × (rest ≡ 0))
      × (status_of l rest ≡ released → rest ≡ 0)
honest l c r = (λ h. ground arith, λ h. ground arith, λ h. ground arith)

balanced :
    (l c r : ℕ)
    → let rest = l - c - r in
      (rest + c + r ≡ max l (c + r))
      × ((status_of l rest ≡ available) ↔ (0 < rest))
      × ((status_of l rest ≡ disabled) ↔ (l ≡ 0))
balanced l c r =
    (omega arith, (λ h. ground arith, λ h. ground arith), (λ h. ground arith, λ h. ground arith))

module _ (fl : Floats) (conv : Conversions fl) where
  open fl use {F}

  pool_of-IsHonest :
      (budget usage : Fields F) (s : PoolSpec) → IsHonest (pool_of fl conv budget usage s)
  unfolding pool_of
  pool_of-IsHonest budget usage s =
      honest (limit_of fl conv s budget) (committed_of fl conv s usage)
        (reserved_of fl conv s.reservation_key usage)

  pool_of-IsBalanced :
      (budget usage : Fields F) (s : PoolSpec) → IsBalanced (pool_of fl conv budget usage s)
  unfolding pool_of
  pool_of-IsBalanced budget usage s =
      balanced (limit_of fl conv s budget) (committed_of fl conv s usage)
        (reserved_of fl conv s.reservation_key usage)

  model_pool_of-IsHonest :
      (usage raw : Fields F) (p : ModelTokenPool) → IsHonest (model_pool_of fl conv usage p raw)
  unfolding model_pool_of
  model_pool_of-IsHonest usage raw p = (λ h. ground arith, λ h. ground arith, λ h. ground arith)

  append_pool-IsHonest :
      (usage : Fields F) (p : ModelTokenPool) (v : Value F) (rest : List ResourcePoolState)
      → All IsHonest rest
      → All IsHonest (append_pool fl conv usage p v rest)
  append_pool-IsHonest usage p (mapping raw) rest h = (model_pool_of-IsHonest usage raw p, h)
  append_pool-IsHonest usage p null rest h = h
  append_pool-IsHonest usage p (boolean b) rest h = h
  append_pool-IsHonest usage p (integer n) rest h = h
  append_pool-IsHonest usage p (float x) rest h = h
  append_pool-IsHonest usage p (text s) rest h = h
  append_pool-IsHonest usage p (sequence n) rest h = h

  model_pools_of-IsHonest :
      (usage raw_pools : Fields F) (ps : List ModelTokenPool)
      → All IsHonest (model_pools_of fl conv usage raw_pools ps)
  unfolding model_pools_of
  model_pools_of-IsHonest usage raw_pools [] = tt
  model_pools_of-IsHonest usage raw_pools (p ∷ ps) =
      append_pool-IsHonest usage p (or_default (lookup (pool_name p) raw_pools) (mapping end))
        (model_pools_of fl conv usage raw_pools ps) (model_pools_of-IsHonest usage raw_pools ps)

  pools_if_mapping-IsHonest :
      (usage : Fields F) (v : Value F) → All IsHonest (pools_if_mapping fl conv usage v)
  pools_if_mapping-IsHonest usage (mapping raw_pools) =
      model_pools_of-IsHonest usage raw_pools model_pools
  pools_if_mapping-IsHonest usage null = tt
  pools_if_mapping-IsHonest usage (boolean b) = tt
  pools_if_mapping-IsHonest usage (integer n) = tt
  pools_if_mapping-IsHonest usage (float x) = tt
  pools_if_mapping-IsHonest usage (text s) = tt
  pools_if_mapping-IsHonest usage (sequence n) = tt

  -- Whatever the mappings hold, each pool of the snapshot that is shown as available has a limit
  -- and something left, an exhausted one has a limit and nothing left, and a released one has
  -- nothing left. Of each of the nine pools of `specs`, what is left, committed and reserved add up
  -- to the limit, or to what is committed and reserved if that is more; it is available exactly
  -- when something is left, and disabled exactly when its limit is zero.
  pub snapshot-IsHonest :
      (budget usage : Fields F) (model_token_pools : Option (Fields F))
      → All IsHonest (build_resource_pool_snapshot fl conv budget usage model_token_pools)
        × All IsBalanced (map (pool_of fl conv budget usage) specs)
  unfolding build_resource_pool_snapshot
  snapshot-IsHonest budget usage model_token_pools = (
    All-++ IsHonest (map (pool_of fl conv budget usage) specs)
        (pools_if_mapping fl conv usage (raw_model_pools fl conv model_token_pools usage))
        (All-map IsHonest (pool_of fl conv budget usage) (pool_of-IsHonest budget usage) specs)
        (pools_if_mapping-IsHonest usage (raw_model_pools fl conv model_token_pools usage)),
    All-map IsBalanced (pool_of fl conv budget usage) (pool_of-IsBalanced budget usage) specs,
  )
