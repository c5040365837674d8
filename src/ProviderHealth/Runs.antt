-- ===== src/ProviderHealth/Runs.antt =====
-- The tracker over any sequence of attempts and expiries.
use deep_research_agent.Common.{
  ℕ, ◌≡◌, inl, inr, refl, sym, ◌∙◌, Bool-cases, Option, some, Option-cases, List, [], ◌∷◌, String,
  ◌==◌, string_eq,
}
use mathlib.Core.Option
use mathlib.Core.Option.{some-injective}
use deep_research_agent.Common.Floats.{Floats}
use deep_research_agent.Common.Dict.{get, put, get-put_cases}
use deep_research_agent.ProviderHealth.Data.{ProviderFailureType, ProviderRecord}
use deep_research_agent.ProviderHealth.Record.{succeed, fail, expire}
use deep_research_agent.ProviderHealth.Tracker.{
  Tracker, new_tracker, tracked, record_success, record_failure, expire_cooldowns, expire_all,
  or_now,
}
use deep_research_agent.ProviderHealth.Invariant.{
  IsSound, new_record-IsSound, succeed-IsSound, fail-IsSound, expire-IsSound,
}

-- The calls that change a tracker: the fields are the arguments of the method and the clock.
pub data Call (F : Type 0) : Type 0 where
  success : String → F → Option ℕ → ℕ → Call F
  failure : String → ProviderFailureType → F → Option ℕ → ℕ → Call F
  expiry : Option ℕ → ℕ → Call F

module _ (fl : Floats) where
  open fl use {F}

  abbrev pub call : Tracker F → Call F → Tracker F
  call t (success name latency when clock) = (record_success fl t name latency when clock).0
  call t (failure name type latency when clock) =
      (record_failure fl t name type latency when clock).0
  call t (expiry now clock) = (expire_cooldowns fl t now clock).0

  unfoldable pub run : Tracker F → List (Call F) → Tracker F
  run t [] = t
  run t (c ∷ cs) = run (call t c) cs

  -- every record that the tracker holds is sound
  pub record AllSound (t : Tracker F) : Type 0 where
    pub at :
        (name : String) (r : ProviderRecord F)
        → get name t.records ≡ some r
        → IsSound t.unavailable_streak t.max_probe_failures r

  tracked-IsSound :
      (t : Tracker F) (name : String) (clock : ℕ)
      → AllSound t
      → IsSound t.unavailable_streak t.max_probe_failures (tracked fl t name clock)
  unfolding tracked
  tracked-IsSound t name clock h = elim (Option-cases (get name t.records)) [
    | inl e ↦ rw e (new_record-IsSound fl t.unavailable_streak t.max_probe_failures name clock)
    | inr (r, e) ↦ rw e (h.at name r e)
  ]

  put-AllSound :
      (t : Tracker F) (name : String) (r : ProviderRecord F)
      → IsSound t.unavailable_streak t.max_probe_failures r
      → AllSound t
      → AllSound (record t { records = put name r t.records })
  put-AllSound t name r s h = record {
    at = λ j x e. elim (get-put_cases name j r x t.records e) [
      | inl p ↦ rw p s
      | inr q ↦ h.at j x q
    ];
  }

  pub expire_all-get :
      (moment : ℕ) (name : String) (rs : List (String × ProviderRecord F))
      → get name (expire_all fl moment rs) ≡ Option.map (expire fl moment) (get name rs)
  unfolding get expire_all
  expire_all-get moment name [] = refl
  expire_all-get moment name ((k, r) ∷ rest) = elim (Bool-cases (k == name)) [
    | inl e ↦ rw e refl
    | inr e ↦ rw e (expire_all-get moment name rest)
  ]

  expire_cooldowns-AllSound :
      (t : Tracker F) (now : Option ℕ) (clock : ℕ)
      → AllSound t
      → AllSound (expire_cooldowns fl t now clock).0
  unfolding expire_cooldowns
  expire_cooldowns-AllSound t now clock h = record {
    at = λ j x e.
        let (r, found, x_is) =
          (Option.map-eq-some_iff (expire fl (or_now now clock)) (get j t.records)).0
            (sym (expire_all-get (or_now now clock) j t.records) ∙ e) in
        rw (← x_is) (
          expire-IsSound fl t.unavailable_streak t.max_probe_failures (or_now now clock) r
            (h.at j r found));
  }

  pub call-AllSound : (t : Tracker F) (c : Call F) → AllSound t → AllSound (call t c)
  unfolding record_success record_failure
  call-AllSound t (success name latency when clock) h =
      put-AllSound t name (succeed fl latency (or_now when clock) (tracked fl t name clock)).0
        (succeed-IsSound fl t.unavailable_streak t.max_probe_failures latency (or_now when clock)
          (tracked fl t name clock) (tracked-IsSound t name clock h))
        h
  call-AllSound t (failure name type latency when clock) h =
      put-AllSound t name
        (fail fl t.cooldown_time t.unavailable_streak t.max_probe_failures type latency
          (or_now when clock) (tracked fl t name clock)).0
        (fail-IsSound fl t.unavailable_streak t.max_probe_failures t.cooldown_time type latency
          (or_now when clock) (tracked fl t name clock) (tracked-IsSound t name clock h))
        h
  call-AllSound t (expiry now clock) h = expire_cooldowns-AllSound t now clock h

  run_from-AllSound : (t : Tracker F) (cs : List (Call F)) → AllSound t → AllSound (run t cs)
  unfolding run
  run_from-AllSound t [] h = h
  run_from-AllSound t (c ∷ cs) h = run_from-AllSound (call t c) cs (call-AllSound t c h)

  -- Whatever calls a new tracker has received, with any thresholds, each of its records satisfies
  -- the invariant `IsSound`, which relates its streaks, its counts, its state and its deadline.
  pub run-AllSound :
      (cooldown_time unavailable_after probes : ℕ) (cs : List (Call F))
      → AllSound (run (new_tracker fl cooldown_time unavailable_after probes) cs)
  unfolding new_tracker get
  run-AllSound cooldown_time unavailable_after probes cs =
      run_from-AllSound (new_tracker fl cooldown_time unavailable_after probes) cs
        (record { at = λ j x e. cc })
