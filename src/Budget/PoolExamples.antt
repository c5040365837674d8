-- ===== src/Budget/PoolExamples.antt =====
-- The pools and the estimates of a small run.
use deep_research_agent.Common.{ℕ, ◌≤◌, Bool, false, none, some, map, String, All, arith}
use deep_research_agent.Common.Micros.{micros}
use deep_research_agent.Common.Values.{
  pos, negsuc, null, integer, text, mapping, Fields, end, field, Conversions,
}
use deep_research_agent.Budget.Allocation.{CallRequest}
use deep_research_agent.Budget.Pools.{specs, pool_of, build_resource_pool_snapshot}
use deep_research_agent.Budget.Pools.Laws.{IsHonest, IsBalanced, snapshot-IsHonest}
use deep_research_agent.Budget.Schedule.{Scheduled}
use deep_research_agent.Budget.Estimates.{WriterShape, estimate_minimum_call_tokens}

abbrev plain : Conversions micros
plain = record {
  int_of_float = λ x. pos 0;
  int_of_text = λ s. none;
  float_of_int = λ n. 0;
  float_of_text = λ s. none;
}

-- limits with an older key, and one that is negative
abbrev limits : Fields ℕ
limits = field "max_searches" (integer (pos 8)) (
    field "max_pages_fetched" (integer (pos 4))
      (field "max_extraction_calls" (integer (negsuc 2)) end))

-- more pages fetched and held than the limit, and a writer pool that was released
abbrev usage : Fields ℕ
usage = field "logical_queries" (integer (pos 3)) (
    field "pages_fetched" (integer (pos 3)) (
      field "page_slots_reserved" (integer (pos 2))
        (field "writer_token_reserve_released" null end)))

abbrev pools : Fields ℕ
pools =
    field "writer" (mapping (field "allocated_tokens" (integer (pos 900)) end))
      (field "safety" (text "none") end)

abbrev shape : WriterShape ℕ
shape = record {
  question_count = pos 3;
  evidence_count = pos 10;
  fixed_tokens = pos 1500;
  per_question_tokens = pos 220;
  per_evidence_tokens = pos 180;
  output_tokens = pos 2000;
  safety_ratio = 150000;
  maximum = pos 10000;
}

abbrev waiting : Scheduled ℕ
waiting = record { attempts = 0; coverage = 900000; priority = 3; question_id = "q2" }

abbrev attempted : Scheduled ℕ
attempted = record { attempts = 1; coverage = 0; priority = 1; question_id = "q1" }

abbrev never : String → String → Bool
never s t = false

abbrev request : CallRequest
request = record {
  available = 9000;
  eligible_questions = 2;
  other_unattempted = 1;
  current_attempts = 0;
  minimum_call = 0;
  maximum_call = 4000;
}

affordable :
    (estimate_minimum_call_tokens micros (pos 500) (pos 800) (pos 400) 150000).total_tokens
    ≤ request.maximum_call
unfolding estimate_minimum_call_tokens
affordable = omega arith

snapshot-IsHonest_example :
    All IsHonest (build_resource_pool_snapshot micros plain limits usage (some pools))
    × All IsBalanced (map (pool_of micros plain limits usage) specs)
snapshot-IsHonest_example = snapshot-IsHonest micros plain limits usage (some pools)
