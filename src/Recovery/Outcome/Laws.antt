-- ===== src/Recovery/Outcome/Laws.antt =====
-- What the outcome of a recovery attempt means.
use deep_research_agent.Common.{
  ℕ, ◌≤◌, ◌≡◌, ◌↔◌, ◌⊎◌, Bool, true, false, not, ◌||◌, arith, ltb, leb, if◌then◌else◌,
}
use deep_research_agent.Common.Floats.{Floats, lt, fmax, IsNonneg, decimal-IsNonneg}
use deep_research_agent.Common.Values.{pos, clip}
use deep_research_agent.Recovery.Outcome.{
  RecoveryOutcomeType, successful, partial, low_gain, failed, RecoveryMeasurement, coverage_delta,
  gap_reduction, accepted_delta, candidate_delta, independent_delta, useful_result, outcome_type_of,
  utility_gain_of,
}

gain_useful :
    (risen above : Bool) (gaps accepted candidates independent sources : ℕ)
    → (risen ≡ true → above ≡ true)
    → ((risen ≡ true) ⊎ (1 ≤ gaps) ⊎ (1 ≤ accepted) ⊎ (1 ≤ independent))
    → (above
        || ltb 0 gaps
        || ltb 0 accepted
        || ltb 0 candidates
        || ltb 0 independent
        || ltb 0 sources)
      ≡ true
gain_useful risen above gaps accepted candidates independent sources h k = ground arith

-- the classification on the facts that it reads
abbrev classify :
    (failed useful risen : Bool) (gaps accepted independent used reserved : ℕ) → RecoveryOutcomeType
classify execution_failed useful risen gaps accepted independent used reserved =
    if execution_failed
    then failed
    else if not useful
    then if ltb 0 used || ltb 0 reserved then low_gain else failed
    else if risen || ltb 0 gaps || leb 5 accepted || ltb 0 independent
    then successful
    else partial

classified :
    (execution_failed useful risen : Bool) (gaps accepted independent used reserved : ℕ)
    → (((risen ≡ true) ⊎ (1 ≤ gaps) ⊎ (1 ≤ accepted) ⊎ (1 ≤ independent)) → useful ≡ true)
    → ((classify execution_failed useful risen gaps accepted independent used reserved ≡ successful)
        ↔ ((execution_failed ≡ false)
            × ((risen ≡ true) ⊎ (1 ≤ gaps) ⊎ (5 ≤ accepted) ⊎ (1 ≤ independent))))
      × ((classify execution_failed useful risen gaps accepted independent used reserved ≡ failed)
          ↔ ((execution_failed ≡ true) ⊎ ((useful ≡ false) × (used ≡ 0) × (reserved ≡ 0))))
classified execution_failed useful risen gaps accepted independent used reserved h = ground arith

module _ (fl : Floats) where
  open fl use {F, le, decimal, sub}

  -- A rise of the coverage by 0.2 is one above zero.
  rise :
      (d : F)
      → le (decimal 2 1) (decimal 0 0) ≡ false
      → (le (decimal 2 1) (fmax fl (decimal 0 0) d) ≡ le (decimal 2 1) d)
        × (le (decimal 2 1) d ≡ true → lt fl (decimal 0 0) (fmax fl (decimal 0 0) d) ≡ true)
  rise d h = ground (arith, fl.le_trans (decimal 2 1) d (decimal 0 0))

  -- The outcome is successful exactly when the execution has not failed, and the coverage rose by at least
  -- 0.2, a gap was closed, at least 5 pieces of evidence were accepted or an independent source was
  -- found; it is failed exactly when the execution has failed, or nothing was gained and no tokens were
  -- reserved or used.
  pub outcome_explained :
      (m : RecoveryMeasurement F)
      → le (decimal 2 1) (decimal 0 0) ≡ false
      → ((outcome_type_of fl m ≡ successful) ↔ (
          (m.execution_failed ≡ false)
          × ((le (decimal 2 1) (sub m.coverage_after m.coverage_before) ≡ true)
              ⊎ (1 ≤ gap_reduction fl m)
              ⊎ (5 ≤ accepted_delta fl m)
              ⊎ (1 ≤ independent_delta fl m))))
        × ((outcome_type_of fl m ≡ failed) ↔ (
            (m.execution_failed ≡ true)
            ⊎ ((useful_result fl m ≡ false)
                × (clip m.tokens_used ≡ 0)
                × (clip m.tokens_reserved ≡ 0))))
  unfolding outcome_type_of useful_result
  outcome_explained m h =
      let d = sub m.coverage_after m.coverage_before in
      let (same, above) = rise d h in
      rw (outcome_type_of, same)
        (rw same at (
          classified m.execution_failed (useful_result fl m)
            (le (decimal 2 1) (coverage_delta fl m)) (gap_reduction fl m) (accepted_delta fl m)
            (independent_delta fl m) (clip m.tokens_used) (clip m.tokens_reserved)
            (gain_useful (le (decimal 2 1) (coverage_delta fl m))
              (lt fl (decimal 0 0) (coverage_delta fl m)) (gap_reduction fl m) (accepted_delta fl m)
              (candidate_delta fl m) (independent_delta fl m) (clip m.new_sources_count)
              (λ r. above (rw same at r)))))

  -- With a number of new sources that is not negative the gain is not negative.
  pub utility_gain_of-IsNonneg :
      (m : RecoveryMeasurement F) (n : ℕ)
      → m.new_sources_count ≡ pos n
      → IsNonneg fl (utility_gain_of fl m)
  unfolding utility_gain_of
  utility_gain_of-IsNonneg m n h =
      let z = decimal 0 0 in
      let part = λ (k c d : ℕ).
        fl.mul_nonneg (decimal k 0) (decimal c d) (decimal-IsNonneg fl k 0)
          (decimal-IsNonneg fl c d) in
      let coverage : le z (coverage_delta fl m) ≡ true =
        ground (arith, fl.le_refl z, fl.le_total z (sub m.coverage_after m.coverage_before)) in
      let sum =
        fl.add_nonneg _ _
          (fl.add_nonneg _ _
            (fl.add_nonneg _ _ (fl.add_nonneg _ _ coverage (part (gap_reduction fl m) 1 1))
              (part (accepted_delta fl m) 2 2))
            (part (independent_delta fl m) 5 2))
          (part n 1 2) in
      rw h (rw (fl.round-zero 6) at (fl.round_mono z _ 6 sum))
