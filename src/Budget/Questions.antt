-- ===== src/Budget/Questions.antt =====
-- `estimate_question_budgets` of apps/api/app/domain/research_budget.py.
-- A question is a mapping; `label n` stands for the text f"q{n}", and `str(id)` of an id that is no
-- text for `show`.
pub mod Totals
use deep_research_agent.Common.{
  ℕ, zero, suc, ◌+◌, ◌-◌, ◌*◌, ◌/◌, ◌≤◌, ◌<◌, min, max, ◌≡◌, refl, Bool, true, false, Option, none,
  some, List, [], ◌∷◌, String, string_eq, ◌==◌, ltb, leb, nat_eqb, if◌then◌else◌, arith, Result, ok,
  raise, length, sum, map, All,
}
use deep_research_agent.Common.Floats.{Floats}
use deep_research_agent.Common.Values.{
  items_length, ℤ, pos, negsuc, clip, Value, null, boolean, integer, float, text, sequence, mapping,
  Fields, lookup, or_default, truthy, Conversions,
}
use deep_research_agent.Budget.Allocation.{BudgetError, negative_token_budget}

pub record QuestionBudgetEstimate : Type 0 where
  pub question_id : String
  pub minimum_tokens : ℕ
  pub target_tokens : ℕ
  pub priority : ℕ
  pub complexity : ℕ

-- an entry of `rows`
pub record Row : Type 0 where
  pub question_id : String
  pub priority : ℕ
  pub complexity : ℕ
  pub weight : ℕ

module _ (fl : Floats) (conv : Conversions fl) where
  open fl use {F}
  open conv use {int_of_float, int_of_text}

  abbrev or_int : Option ℤ → ℤ → ℤ
  or_int none d = d
  or_int (some n) d = n

  -- `_safe_int`
  unfoldable pub safe_int : Value F → ℤ → ℤ
  safe_int (integer n) default = n
  safe_int (float x) default = int_of_float x
  safe_int (text s) default = or_int (int_of_text s) default
  safe_int _ default = default

abbrev pub length_of : {F : Type 0} → Option (Value F) → ℕ
length_of (some (sequence xs)) = items_length xs
length_of _ = 0

-- `min(3, max(1, n))`
abbrev pub clamp_priority : ℤ → ℕ
clamp_priority n = min 3 (max 1 (clip n))

module _ (fl : Floats) (conv : Conversions fl) (show : Value fl.F → String)
    (label : ℕ → String) where
  open fl use {F}

  -- `str(value)`
  abbrev pub str_of : Value F → String
  str_of (text s) = s
  str_of v = show v

  -- `str(question.get("id") or f"q{index}")`
  abbrev pub id_or : Option (Value F) → ℕ → String
  id_or none index = label index
  id_or (some v) index = if truthy fl v then str_of v else label index

  unfoldable pub row_of : ℕ → Fields F → Row
  unfolding safe_int
  row_of index question =
      let priority =
        clamp_priority
          (safe_int fl conv (or_default (lookup "priority" question) (integer (pos 2))) (pos 2)) in
      let complexity =
        1
        + length_of (lookup "evidence_requirements" question)
        + (length_of (lookup "search_hints" question) - 1) in
      record {
        question_id = id_or (lookup "id" question) index;
        priority = priority;
        complexity = complexity;
        weight = 4 - priority + complexity;
      }

  unfoldable pub rows_of : ℕ → List (Fields F) → List Row
  rows_of index [] = []
  rows_of index (q ∷ qs) = row_of index q ∷ rows_of (index + 1) qs

abbrev pub estimate : Row → ℕ → ℕ → QuestionBudgetEstimate
estimate row minimum target = record {
  question_id = row.question_id;
  minimum_tokens = minimum;
  target_tokens = target;
  priority = row.priority;
  complexity = row.complexity;
}

-- the loop that shares out `remaining`; the last row takes what is left of the pool
unfoldable pub share_out :
    (floor remaining total_weight remaining_pool : ℕ) → List Row → List QuestionBudgetEstimate
share_out floor remaining total_weight remaining_pool [] = []
share_out floor remaining total_weight remaining_pool (row ∷ []) =
    estimate row floor (floor + remaining_pool) ∷ []
share_out floor remaining total_weight remaining_pool (row ∷ next ∷ rows) =
    let share = remaining * row.weight / total_weight in
    estimate row floor (floor + share)
    ∷ share_out floor remaining total_weight (remaining_pool - share) (next ∷ rows)

abbrev pub target : QuestionBudgetEstimate → ℕ
target e = e.target_tokens

abbrev pub targets : List QuestionBudgetEstimate → ℕ
targets es = sum (map target es)

-- the tokens that the loop left unassigned go to the first estimate
abbrev pub top_up : ℕ → List QuestionBudgetEstimate → List QuestionBudgetEstimate
top_up pool [] = []
top_up pool (e ∷ es) =
    if ltb (targets (e ∷ es)) pool
    then record e { target_tokens = e.target_tokens + pool - targets (e ∷ es) } ∷ es
    else e ∷ es

abbrev pub weights : List Row → ℕ
weights rows = sum (map (λ r. r.weight) rows)

-- the division of a pool over rows, with a floor for each
unfoldable pub divide_pool : ℕ → ℕ → List Row → List QuestionBudgetEstimate
unfolding share_out
divide_pool pool floor rows =
    if ltb pool (floor * length rows)
    then map (λ row. estimate row (pool / length rows) (pool / length rows)) rows
    else let remaining = pool - floor * length rows in
      top_up pool (share_out floor remaining (weights rows) remaining rows)

module _ (fl : Floats) (conv : Conversions fl) (show : Value fl.F → String)
    (label : ℕ → String) where
  open fl use {F}

  abbrev pub divide : ℕ → ℕ → List (Fields F) → List QuestionBudgetEstimate
  divide pool floor [] = []
  divide pool floor (q ∷ qs) = divide_pool pool floor (rows_of fl conv show label 1 (q ∷ qs))

  unfoldable pub estimate_question_budgets :
      List (Fields F)
      → (max_tokens planner_tokens writer_reserve minimum_per_question : ℤ)
      → Result BudgetError (List QuestionBudgetEstimate)
  unfolding divide_pool
  estimate_question_budgets questions (pos total) (pos planner) (pos writer) minimum =
      ok (divide (total - planner - writer) (max 1 (clip minimum)) questions)
  estimate_question_budgets questions _ _ _ _ = raise negative_token_budget
