-- ===== src/ResearchState/Reducer.antt =====
-- `apply_patch` of apps/api/app/agent/reducers/state_reducer.py. The claims, gaps and actions that
-- a state or a patch holds have passed their own validators when they were built;
-- `ResearchState.model_validate` then runs the validator of the state.
use deep_research_agent.Common.{
  ℕ, ◌+◌, not, Option, none, some, List, [], ◌∷◌, nat_eq, nat_eqb, if◌then◌else◌, Result, raise_if,
  ◌>>◌,
}
use deep_research_agent.Common.Dict.{put, values}
use deep_research_agent.ResearchState.Data.{ResearchState, StatePatch}
use deep_research_agent.ResearchState.Validate.{
  StateError, state_version_conflict, claim_id_of, gap_id_of, validate_state_invariants,
}

module _ {V : Type 0} where
  -- `d.update(entries)`
  unfoldable pub put_all : List (ℕ × V) → List (ℕ × V) → List (ℕ × V)
  put_all [] d = d
  put_all ((k, v) ∷ entries) d = put_all entries (put k v d)

  abbrev pub entries_of : (V → ℕ) → List V → List (ℕ × V)
  entries_of key [] = []
  entries_of key (v ∷ vs) = (key v, v) ∷ entries_of key vs

  -- `{key(v): v for v in vs}`
  unfoldable pub index_by : (V → ℕ) → List V → List (ℕ × V)
  unfolding put_all
  index_by key vs = put_all (entries_of key vs) []

  -- `d = {… old}`, `d.update({… new})`, `tuple(d.values())`
  unfoldable pub merge : (V → ℕ) → List V → List V → List V
  unfolding index_by
  merge key old new = values (put_all (index_by key new) (index_by key old))

-- a field of the patch that is `None` leaves the field of the state
abbrev pub or_keep {ℓ} : {A : Type ℓ} → Option A → A → A
or_keep none old = old
or_keep (some new) old = new

abbrev pub or_keep_some {ℓ} : {A : Type ℓ} → Option A → Option A → Option A
or_keep_some none old = old
or_keep_some (some new) old = some new

module _ {F : Type 0} where
  -- the payload with the changes
  unfoldable pub patched : ResearchState F → StatePatch F → ResearchState F
  unfolding merge
  patched s p = record s {
    state_version = s.state_version + 1;
    known = merge claim_id_of s.known p.known_upserts;
    gaps = merge gap_id_of s.gaps p.gap_upserts;
    next_action = or_keep_some p.next_action s.next_action;
    budget_usage = or_keep p.budget_usage s.budget_usage;
    quality = or_keep p.quality s.quality;
    coverage_map = or_keep p.coverage_map s.coverage_map;
    phase = or_keep p.phase s.phase;
    status = or_keep p.status s.status;
    stop_reason = if p.clear_stop_reason then none else or_keep_some p.stop_reason s.stop_reason;
  }

  unfoldable pub apply_patch : ResearchState F → StatePatch F → Result StateError (ResearchState F)
  apply_patch s p = do
    raise_if (not (nat_eqb p.base_version s.state_version)) state_version_conflict
    validate_state_invariants (patched s p)
