-- ===== src/ResearchState/Laws.antt =====
-- What `apply_patch` promises.
use deep_research_agent.Common.{
  ℕ, ◌+◌, ◌≡◌, ◌≢◌, ◌↔◌, refl, false, not, none, map, nat_eq, nat_eqb, arith, if◌then◌else◌, ok,
  raise,
}
use deep_research_agent.Common.Checks.{run_checks-ok, run_checks-raise, raise_if-ok}
use deep_research_agent.ResearchState.Data.{ResearchState, StatePatch}
use deep_research_agent.ResearchState.Validate.{
  state_version_conflict, claims_not_unique, gaps_not_unique, has_repeats, claim_id_of, gap_id_of,
  state_checks, validate_state_invariants,
}
use deep_research_agent.ResearchState.Reducer.{patched, apply_patch, or_keep_some}
use deep_research_agent.ResearchState.Merge.{find_last, find_last-merge, merge-has_repeats}

module _ {F : Type 0} where
  -- the validator of a state, past its two tests on repeated ids
  patched_unique :
      (s : ResearchState F) (p : StatePatch F)
      → (has_repeats (map claim_id_of (patched s p).known) ≡ false)
        × (has_repeats (map gap_id_of (patched s p).gaps) ≡ false)
  unfolding patched
  patched_unique s p = (
    merge-has_repeats claim_id_of s.known p.known_upserts,
    merge-has_repeats gap_id_of s.gaps p.gap_upserts,
  )

  validate_errors :
      (s : ResearchState F)
      → (validate_state_invariants s ≢ raise state_version_conflict)
        × (has_repeats (map claim_id_of s.known) ≡ false
            → validate_state_invariants s ≢ raise claims_not_unique)
        × (has_repeats (map gap_id_of s.gaps) ≡ false
            → validate_state_invariants s ≢ raise gaps_not_unique)
  unfolding validate_state_invariants
  validate_errors s = (
    λ e. ground (arith, run_checks-raise (state_checks s) s state_version_conflict e),
    λ h e. ground (arith, run_checks-raise (state_checks s) s claims_not_unique e),
    λ h e. ground (arith, run_checks-raise (state_checks s) s gaps_not_unique e),
  )

  -- A patch is refused as conflicting exactly when its base version is not that of the state; and
  -- none is refused for a claim or gap that is there twice, even if the patch repeats one.
  pub apply_patch_errors :
      (s : ResearchState F) (p : StatePatch F)
      → ((apply_patch s p ≡ raise state_version_conflict) ↔ (p.base_version ≢ s.state_version))
        × (apply_patch s p ≢ raise claims_not_unique)
        × (apply_patch s p ≢ raise gaps_not_unique)
  unfolding apply_patch
  apply_patch_errors s p =
      let errors = validate_errors (patched s p) in
      let unique_ids = patched_unique s p in
      (
        (λ h. ground (arith, errors.0), λ h. ground arith),
        ground (arith, errors, unique_ids),
        ground (arith, errors, unique_ids),
      )

  validate-ok : (s s' : ResearchState F) → validate_state_invariants s ≡ ok s' → s' ≡ s
  unfolding validate_state_invariants
  validate-ok s s' h = (run_checks-ok (state_checks s) s s' h).0

  pub applied :
      (s s' : ResearchState F) (p : StatePatch F)
      → apply_patch s p ≡ ok s'
      → (s' ≡ patched s p)
        × (p.base_version ≡ s.state_version)
        × (validate_state_invariants (patched s p) ≡ ok s')
  unfolding apply_patch
  applied s s' p h =
      let (same, valid) =
        raise_if-ok (not (nat_eqb p.base_version s.state_version)) state_version_conflict
          (validate_state_invariants (patched s p)) s' h in
      (validate-ok (patched s p) s' valid, ground arith, valid)

  -- A patch that is accepted raises the version by one; each claim and each gap is afterwards the
  -- last one that the patch has under the id, or else the one that the state had; the run, the
  -- limits and the flag of cancellation stay; and the reason to stop is cleared, set or kept.
  pub apply_patch_effect :
      (s s' : ResearchState F) (p : StatePatch F)
      → apply_patch s p ≡ ok s'
      → (s'.state_version ≡ s.state_version + 1)
        × ((k : ℕ)
            → find_last claim_id_of k s'.known
              ≡ or_keep_some
                  (find_last claim_id_of k p.known_upserts)
                  (find_last claim_id_of k s.known))
        × ((k : ℕ)
            → find_last gap_id_of k s'.gaps
              ≡ or_keep_some (find_last gap_id_of k p.gap_upserts) (find_last gap_id_of k s.gaps))
        × (s'.run_id ≡ s.run_id)
        × (s'.budget_limits ≡ s.budget_limits)
        × (s'.cancel_requested ≡ s.cancel_requested)
        × (s'.stop_reason
            ≡ (if p.clear_stop_reason then none else or_keep_some p.stop_reason s.stop_reason))
  apply_patch_effect s s' p h =
      let is_patched = (applied s s' p h).0 in
      unfold patched in
      rw is_patched (
        refl,
        λ k. find_last-merge claim_id_of k s.known p.known_upserts,
        λ k. find_last-merge gap_id_of k s.gaps p.gap_upserts,
        refl,
        refl,
        refl,
        refl,
      )

  -- Of two patches on the same version only one is applied: after the first, the second conflicts.
  pub apply_patch_no_lost_update :
      (s s' : ResearchState F) (p q : StatePatch F)
      → apply_patch s p ≡ ok s'
      → q.base_version ≡ p.base_version
      → apply_patch s' q ≡ raise state_version_conflict
  apply_patch_no_lost_update s s' p q h e =
      let (is_patched, same, valid) = applied s s' p h in
      let raised = (apply_patch_effect s s' p h).0 in
      (apply_patch_errors s' q).0.1 (λ again. absurd (omega arith))
