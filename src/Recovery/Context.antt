-- ===== src/Recovery/Context.antt =====
-- `clear_recovery_context` of apps/api/app/domain/recovery_execution.py: the end of an attempt
-- removes what the usage mapping stores about it.
use deep_research_agent.Common.{
  ℕ, ◌≡◌, Bool, false, ◌&&◌, ◌||◌, Option, none, some, arith, String, string_eq, ◌==◌,
  if◌then◌else◌,
}
use deep_research_agent.Common.Uuids.{Uuids}
use deep_research_agent.Common.Values.{Value, text, Fields, end, field, lookup}

module _ {F : Type 0} where
  -- `cleaned.pop(key, None)`, whose result is not used; a dict has a key once
  unfoldable pub pop : String → Fields F → Fields F
  pop key end = end
  pop key (field k v rest) =
      let others = pop key rest in if k == key then others else field k v others

  -- `value == text`, for a value that may be missing
  abbrev pub is_text : String → Option (Value F) → Bool
  is_text s (some (text t)) = t == s
  is_text s _ = false

  unfoldable pub clear_recovery_context : Uuids → Fields F → (attempt_id : ℕ) → Fields F
  unfolding lookup pop
  clear_recovery_context ids usage attempt_id =
      if is_text (ids.show attempt_id) (lookup "recovery_attempt_id" usage)
      then pop "recovery_context" (pop "recovery_question_id" (pop "recovery_attempt_id" usage))
      else usage

  lookup-pop :
      (key k : String) (m : Fields F)
      → lookup k (pop key m) ≡ (if key == k then none else lookup k m)
  unfolding lookup pop
  lookup-pop key k end = ground arith
  lookup-pop key k (field j v rest) = ground (
    arith,
    lookup-pop key k rest,
    string_eq.same_iff j key,
    string_eq.same_iff j k,
    string_eq.same_iff key k,
  )

  -- The clearing removes the id, the question and the context of the attempt exactly when the
  -- mapping names this attempt, and keeps every other entry.
  pub clear_recovery_context_effect :
      (ids : Uuids) (usage : Fields F) (attempt_id : ℕ) (key : String)
      → lookup key (clear_recovery_context ids usage attempt_id) ≡ (
          if is_text (ids.show attempt_id) (lookup "recovery_attempt_id" usage)
            && ("recovery_attempt_id" == key
                || "recovery_question_id" == key
                || "recovery_context" == key)
          then none
          else lookup key usage)
  unfolding clear_recovery_context
  clear_recovery_context_effect ids usage attempt_id key =
      let first = pop "recovery_attempt_id" usage in
      ground (
        arith,
        lookup-pop "recovery_context" key (pop "recovery_question_id" first),
        lookup-pop "recovery_question_id" key first,
        lookup-pop "recovery_attempt_id" key usage,
      )
