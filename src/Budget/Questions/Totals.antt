-- ===== src/Budget/Questions/Totals.antt =====
-- The division of the pool gives every question its floor and hands out the pool exactly.
use deep_research_agent.Common.{
  ℕ, zero, suc, ◌+◌, ◌-◌, ◌*◌, ◌/◌, ◌≤◌, ◌<◌, ◌≡◌, refl, ap, ◌∙◌, false, List, [], ◌∷◌, ltb, lt→ltb,
  String, max, ok, arith, length, map, All,
}
use native.Mathlib.Decide.{dec_le}
use deep_research_agent.Common.Floats.{Floats}
use deep_research_agent.Common.Values.{ℤ, pos, clip, Value, Fields, Conversions}
use native.Mathlib.Nat.{mul-div-le, div-zero, mul-sub, le_of_mul-le-mul_right}
use deep_research_agent.Budget.Questions.{
  QuestionBudgetEstimate, Row, row_of, rows_of, divide, estimate_question_budgets, estimate,
  share_out, targets, top_up, weights, divide_pool,
}

-- A share is no more than what is left of the pool, and what is left then covers the other rows.
share_fits :
    (remaining total pool weight rest : ℕ)
    → remaining * (weight + rest) ≤ pool * total
    → (remaining * weight / total ≤ pool)
      × (remaining * rest ≤ (pool - remaining * weight / total) * total)
share_fits remaining zero pool weight rest h =
    rw (div-zero (remaining * weight)) (omega arith, omega arith)
share_fits remaining (suc total) pool weight rest h =
    let share = remaining * weight / suc total in
    let part : suc total * share ≤ remaining * weight =
      mul-div-le (remaining * weight) (suc total) in
    let fits : share ≤ pool =
      le_of_mul-le-mul_right {m = share} {n = pool} {k = suc total} (omega arith) (omega arith) in
    (fits, omega (arith, mul-sub (suc total) pool share))

-- The floors and the shares together are the floors and what there was to share out.
targets-share_out :
    (floor remaining total pool : ℕ) (row : Row) (rows : List Row)
    → remaining * weights (row ∷ rows) ≤ pool * total
    → targets (share_out floor remaining total pool (row ∷ rows))
      ≡ floor * length (row ∷ rows) + pool
unfolding share_out
targets-share_out floor remaining total pool row [] h = omega arith
targets-share_out floor remaining total pool row (next ∷ rows) h =
    let (fits, covers) = share_fits remaining total pool row.weight (weights (next ∷ rows)) h in
    omega (
      arith,
      fits,
      targets-share_out floor remaining total (pool - remaining * row.weight / total) next rows
          covers,
    )

abbrev pub HasFloor : ℕ → QuestionBudgetEstimate → Type 0
HasFloor floor e = (e.minimum_tokens ≡ floor) × (floor ≤ e.target_tokens)

share_out-HasFloor :
    (floor remaining total pool : ℕ) (rows : List Row)
    → All (HasFloor floor) (share_out floor remaining total pool rows)
unfolding share_out
share_out-HasFloor floor remaining total pool [] = tt
share_out-HasFloor floor remaining total pool (row ∷ []) = ((refl, omega arith), tt)
share_out-HasFloor floor remaining total pool (row ∷ next ∷ rows) = (
  (refl, omega arith),
  share_out-HasFloor floor remaining total (pool - remaining * row.weight / total) (next ∷ rows),
)

top_up_exact :
    (pool : ℕ) (es : List QuestionBudgetEstimate) → targets es ≡ pool → top_up pool es ≡ es
top_up_exact pool [] h = refl
top_up_exact pool (e ∷ es) h = ground (arith, h)

ltb_of_le : (a b : ℕ) → b ≤ a → ltb a b ≡ false
ltb_of_le a b h = ground arith

-- what the division is when the pool affords the floors
divide_pool_affordable :
    (pool floor : ℕ) (row : Row) (rows : List Row)
    → floor * length (row ∷ rows) ≤ pool
    → let rest = pool - floor * length (row ∷ rows) in
      (targets (share_out floor rest (weights (row ∷ rows)) rest (row ∷ rows)) ≡ pool)
      × (divide_pool pool floor (row ∷ rows)
          ≡ share_out floor rest (weights (row ∷ rows)) rest (row ∷ rows))
unfolding divide_pool
divide_pool_affordable pool floor row rows h =
    let rest = pool - floor * length (row ∷ rows) in
    let total = weights (row ∷ rows) in
    let exact : targets (share_out floor rest total rest (row ∷ rows)) ≡ pool =
      omega (arith, targets-share_out floor rest total rest row rows (omega arith)) in
    (
      exact,
      rw (ltb_of_le pool (floor * length (row ∷ rows)) h)
          (top_up_exact pool (share_out floor rest total rest (row ∷ rows)) exact),
    )

-- If the pool affords the floor of every row, each row gets its floor at least, and the targets
-- together are the pool exactly.
pub divide_pool_exact :
    (pool floor : ℕ) (row : Row) (rows : List Row)
    → floor * length (row ∷ rows) ≤ pool
    → (targets (divide_pool pool floor (row ∷ rows)) ≡ pool)
      × All (HasFloor floor) (divide_pool pool floor (row ∷ rows))
divide_pool_exact pool floor row rows h =
    let rest = pool - floor * length (row ∷ rows) in
    let (exact, is_shares) = divide_pool_affordable pool floor row rows h in
    (
      ap targets is_shares ∙ exact,
      rw is_shares (share_out-HasFloor floor rest (weights (row ∷ rows)) rest (row ∷ rows)),
    )

targets_equal :
    (n : ℕ) (rows : List Row) → targets (map (λ row. estimate row n n) rows) ≡ length rows * n
targets_equal n [] = omega arith
targets_equal n (row ∷ rows) = omega (arith, targets_equal n rows)

divide_pool_scarce :
    (pool floor : ℕ) (row : Row) (rows : List Row)
    → pool < floor * length (row ∷ rows)
    → targets (divide_pool pool floor (row ∷ rows)) ≤ pool
unfolding divide_pool
divide_pool_scarce pool floor row rows h =
    let n = pool / length (row ∷ rows) in
    rw (lt→ltb pool (floor * length (row ∷ rows)) h)
      (omega (arith, targets_equal n rows, mul-div-le pool (length (row ∷ rows))))

-- Whatever the floor, the targets together never exceed the pool.
pub divide_pool-le :
    (pool floor : ℕ) (row : Row) (rows : List Row)
    → targets (divide_pool pool floor (row ∷ rows)) ≤ pool
divide_pool-le pool floor row rows = elim (dec_le (floor * length (row ∷ rows)) pool) [
  | yes h ↦ let (exact, _) = divide_pool_exact pool floor row rows h in omega arith
  | no h ↦ divide_pool_scarce pool floor row rows (omega arith)
]

length-rows_of :
    (fl : Floats) (conv : Conversions fl) (show : Value fl.F → String) (label : ℕ → String)
    (index : ℕ) (qs : List (Fields fl.F))
    → length (rows_of fl conv show label index qs) ≡ length qs
unfolding rows_of
length-rows_of fl conv show label index [] = refl
length-rows_of fl conv show label index (q ∷ qs) =
    ap suc (length-rows_of fl conv show label (index + 1) qs)

-- For a run with questions and limits that are not negative, estimates are returned whose targets
-- together stay within what the limits of planner and writer leave; if that affords the floor of
-- every question, the targets are it exactly, and each is at least the floor.
pub estimate_question_budgets_totals :
    (fl : Floats) (conv : Conversions fl) (show : Value fl.F → String) (label : ℕ → String)
    (total planner writer : ℕ) (minimum : ℤ) (q : Fields fl.F) (qs : List (Fields fl.F))
    → let pool = total - planner - writer in
      let floor = max 1 (clip minimum) in
      let es = divide fl conv show label pool floor (q ∷ qs) in
      (estimate_question_budgets fl conv show label
          (q ∷ qs)
          (pos total)
          (pos planner)
          (pos writer)
          minimum
        ≡ ok es)
      × (targets es ≤ pool)
      × (floor * length (q ∷ qs) ≤ pool → (targets es ≡ pool) × All (HasFloor floor) es)
unfolding estimate_question_budgets rows_of
estimate_question_budgets_totals fl conv show label total planner writer minimum q qs =
    let pool = total - planner - writer in
    let floor = max 1 (clip minimum) in
    let row = row_of fl conv show label 1 q in
    let rows = rows_of fl conv show label (1 + 1) qs in
    (
      refl,
      divide_pool-le pool floor row rows,
      λ h.
          divide_pool_exact pool floor row rows
            (rw (length-rows_of fl conv show label (1 + 1) qs) h),
    )
