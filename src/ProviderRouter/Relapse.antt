-- ===== src/ProviderRouter/Relapse.antt =====
-- The router after two failures of one provider: an open circuit, and then another failure.
use deep_research_agent.Common.{
  ℕ, suc, ◌+◌, ◌<◌, ◌≡◌, ◌≢◌, refl, ◌∙◌, ap, Bool, true, Bool-cases, inl, inr, Option, none, some,
  [], ◌∷◌, String, string_eq, arith, if◌then◌else◌, unique, ==_refl,
}
use mathlib.Core.Option
use deep_research_agent.Common.Floats.{Floats}
use deep_research_agent.Common.Dict.{get}
use deep_research_agent.ProviderHealth.Data.{
  ProviderRecord, is_circuit_open, unavailable, degraded, cooldown,
}
use deep_research_agent.ProviderHealth.Record.{fail}
use deep_research_agent.ProviderHealth.Tracker.{
  Tracker, state_of, state_or_unknown, tracked, record_or_new, record_failure, or_now,
}
use deep_research_agent.ProviderHealth.Runs.{call}
use deep_research_agent.ProviderHealth.Transitions.{Failure, failed, NoCircuitOpen}
use deep_research_agent.ProviderHealth.Cooldown.{get-failed}
use deep_research_agent.ProviderRouter.Choice.{
  Router, select_for, rank, sort_ranked, insert_ranked, is_blocked,
}

module _ (fl : Floats) where
  open fl use {F}

  -- the record after a failure
  abbrev record_after : Tracker F → Failure F → ProviderRecord F → ProviderRecord F
  record_after t f r =
      (fail fl t.cooldown_time t.unavailable_streak t.max_probe_failures f.type f.latency_ms
        (or_now f.when f.clock) r).0

  circuit_opens :
      (t : Tracker F) (f : Failure F) (r : ProviderRecord F)
      → is_circuit_open f.type ≡ true
      → r.state ≢ cooldown
      → ((record_after t f r).state ≡ unavailable)
        × ((record_after t f r).failure_streak ≡ suc r.failure_streak)
        × ((record_after t f r).cooldown_until ≡ some (or_now f.when f.clock + t.cooldown_time))
  unfolding fail
  circuit_opens t f r o h = ground arith

  further_failure :
      (t : Tracker F) (f : Failure F) (r : ProviderRecord F)
      → r.state ≡ unavailable
      → NoCircuitOpen f
      → suc r.failure_streak < t.unavailable_streak
      → ((record_after t f r).state ≡ degraded)
        × ((record_after t f r).cooldown_until ≡ r.cooldown_until)
  unfolding fail
  further_failure t f r h n short = ground arith

  -- a router with one candidate
  abbrev pub lone_router : Tracker F → String → ℕ → Router F
  lone_router t name k = record { health = t; candidates = name ∷ []; max_switches = k }

  lone_selection :
      (t : Tracker F) (name : String) (k used : ℕ) (is_feedback : Bool) (id : Option ℕ)
      → (select_for fl (lone_router t name k) is_feedback id [] used).selected_provider
        ≡ (if is_blocked (state_of fl t name) then none else some name)
  unfolding select_for rank sort_ranked insert_ranked unique
  lone_selection t name k used is_feedback id =
      elim (Bool-cases (is_blocked (state_of fl t name))) [
        | inl e ↦ rw e refl
        | inr e ↦ rw (e, ==_refl name) refl
      ]

  state_of-failed :
      (t : Tracker F) (name : String) (f : Failure F)
      → state_of fl (call fl t (failed fl name f)) name
        ≡ (record_after t f (tracked fl t name f.clock)).state
  unfolding state_of
  state_of-failed t name f = ap (state_or_unknown fl) (get-failed fl t name f)

  tracked-failed :
      (t : Tracker F) (name : String) (f : Failure F) (clock : ℕ)
      → tracked fl (call fl t (failed fl name f)) name clock
        ≡ record_after t f (tracked fl t name f.clock)
  unfolding tracked
  tracked-failed t name f clock = ap (λ o. record_or_new fl o name clock) (get-failed fl t name f)

  -- the record after both failures
  record_after_both :
      (t : Tracker F) (name : String) (f g : Failure F)
      → get name (call fl (call fl t (failed fl name f)) (failed fl name g)).records
        ≡ some (record_after t g (record_after t f (tracked fl t name f.clock)))
  unfolding record_failure
  record_after_both t name f g =
      get-failed fl (call fl t (failed fl name f)) name g
      ∙ ap (λ r. some (record_after t g r)) (tracked-failed t name f g.clock)

  -- An open circuit bars a provider that was not waiting for a probe: the router with no other
  -- candidate selects none. But a further failure, of another type and below the threshold of the
  -- streak, makes the provider degraded, and the router selects it again, whenever the failure
  -- was, while the deadline of the open circuit still stands.
  pub further_failure_lifts_bar :
      (t : Tracker F) (name : String) (f g : Failure F) (k used : ℕ) (is_feedback : Bool)
      (id : Option ℕ)
      → is_circuit_open f.type ≡ true
      → NoCircuitOpen g
      → (tracked fl t name f.clock).state ≢ cooldown
      → suc (suc (tracked fl t name f.clock).failure_streak) < t.unavailable_streak
      → let barred = call fl t (failed fl name f) in
        let lifted = call fl barred (failed fl name g) in
        ((select_for fl (lone_router barred name k) is_feedback id [] used).selected_provider
          ≡ none)
        × ((select_for fl (lone_router lifted name k) is_feedback id [] used).selected_provider
            ≡ some name)
        × (state_of fl lifted name ≡ degraded)
        × (Option.map (λ r. r.cooldown_until) (get name lifted.records)
            ≡ some (some (or_now f.when f.clock + t.cooldown_time)))
  unfolding state_of
  further_failure_lifts_bar t name f g k used is_feedback id o n h short =
      let r = tracked fl t name f.clock in
      let t1 = call fl t (failed fl name f) in
      let t2 = call fl t1 (failed fl name g) in
      let (down, streak, until) = circuit_opens t f r o h in
      let (up, kept) = further_failure t g (record_after t f r) down n (rw streak short) in
      let found = record_after_both t name f g in
      let state : state_of fl t2 name ≡ degraded = ap (state_or_unknown fl) found ∙ up in
      (
        lone_selection t1 name k used is_feedback id
            ∙ ap (λ s. if is_blocked s then none else some name) (state_of-failed t name f ∙ down),
        lone_selection t2 name k used is_feedback id
            ∙ ap (λ s. if is_blocked s then none else some name) state,
        state,
        rw found (ap some (kept ∙ until)),
      )
