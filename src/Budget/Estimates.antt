-- ===== src/Budget/Estimates.antt =====
-- `estimate_writer_reserve_tokens` and `estimate_minimum_call_tokens` of
-- apps/api/app/domain/research_budget.py.
use deep_research_agent.Common.{ℕ, ◌+◌, ◌*◌, ◌≤◌, ◌<◌, min, max, ◌≡◌, arith, ok}
use deep_research_agent.Common.Floats.{Floats}
use deep_research_agent.Common.Values.{ℤ, clip}
use deep_research_agent.Budget.Allocation.{
  CallRequest, allocate_research_call, decide_call, allocate_research_call_outcome,
}

pub record MinimumCallEstimate : Type 0 where
  pub fixed_tokens : ℕ
  pub min_source_tokens : ℕ
  pub min_output_tokens : ℕ
  pub safety_margin_tokens : ℕ
  pub total_tokens : ℕ

-- the arguments of `estimate_writer_reserve_tokens`
pub record WriterShape (F : Type 0) : Type 0 where
  pub question_count : ℤ
  pub evidence_count : ℤ
  pub fixed_tokens : ℤ
  pub per_question_tokens : ℤ
  pub per_evidence_tokens : ℤ
  pub output_tokens : ℤ
  pub safety_ratio : F
  pub maximum : ℤ

module _ (fl : Floats) where
  open fl use {F, decimal, mul, ceil}

  -- `max(1, math.ceil(base * float(safety_ratio)))`, for a ratio that is not negative
  abbrev pub margin_of : ℕ → F → ℕ
  margin_of base ratio = max 1 (ceil (mul (decimal base 0) ratio))

  abbrev pub writer_base : WriterShape F → ℕ
  writer_base w =
      clip w.fixed_tokens
      + clip w.question_count * clip w.per_question_tokens
      + clip w.evidence_count * clip w.per_evidence_tokens
      + max 1 (clip w.output_tokens)

  unfoldable pub estimate_writer_reserve_tokens : WriterShape F → ℕ
  estimate_writer_reserve_tokens w =
      let base = writer_base w in
      let margin = margin_of base w.safety_ratio in min (max 1 (clip w.maximum)) (base + margin)

  unfoldable pub estimate_minimum_call_tokens :
      (fixed_tokens min_source_tokens min_output_tokens : ℤ)
      → (safety_ratio : F) → MinimumCallEstimate
  estimate_minimum_call_tokens fixed_tokens min_source_tokens min_output_tokens safety_ratio =
      let fixed = clip fixed_tokens in
      let source = clip min_source_tokens in
      let output = max 1 (clip min_output_tokens) in
      let base = fixed + source + output in
      let margin = margin_of base safety_ratio in
      record {
        fixed_tokens = fixed;
        min_source_tokens = source;
        min_output_tokens = output;
        safety_margin_tokens = margin;
        total_tokens = base + margin;
      }

  -- The reserve of the writer is at least one token and never above the maximum, if that is
  -- positive; below the maximum it exceeds what the fixed part, the questions, the evidence and the
  -- output need together.
  pub writer_reserve_bounded :
      (w : WriterShape F)
      → let reserve = estimate_writer_reserve_tokens w in
        (1 ≤ reserve)
        × (reserve ≤ max 1 (clip w.maximum))
        × (reserve < clip w.maximum → writer_base w < reserve)
  unfolding estimate_writer_reserve_tokens
  writer_reserve_bounded w = (omega arith, omega arith, λ h. omega arith)

  -- The estimate of a minimal call exceeds its three parts together, none of which is lost, and
  -- as the minimum of a request whose maximum is no less it always leads to a decision.
  pub minimum_call_valid :
      (fixed source output : ℤ) (ratio : F) (r : CallRequest)
      → let e = estimate_minimum_call_tokens fixed source output ratio in
        e.total_tokens ≤ r.maximum_call
        → (clip fixed + clip source + clip output < e.total_tokens)
          × (allocate_research_call (record r { minimum_call = e.total_tokens })
              ≡ ok (decide_call (record r { minimum_call = e.total_tokens })))
  unfolding estimate_minimum_call_tokens
  minimum_call_valid fixed source output ratio r h =
      let e = estimate_minimum_call_tokens fixed source output ratio in
      (
        omega arith,
        (allocate_research_call_outcome (record r { minimum_call = e.total_tokens }) (omega arith)
            (omega arith)).0,
      )
