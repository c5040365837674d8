-- ===== src/ProviderHealth/Cooldown.antt =====
-- Cooldowns and probes: when a provider that was unavailable may be tried again, and when no more.
use deep_research_agent.Common.{
  ℕ, suc, ◌+◌, ◌≤◌, ◌<◌, ◌≡◌, ◌⊎◌, refl, sym, ◌∙◌, ap, Bool-cases, inl, inr, Option, none, some,
  List, [], ◌∷◌, String, arith, leb, if◌then◌else◌, length, All, string_eq, ==_refl,
}
use mathlib.Core.Option
use deep_research_agent.Common.Floats.{Floats}
use deep_research_agent.Common.Dict.{get, get-put}
use deep_research_agent.ProviderHealth.Data.{
  ProviderRecord, unavailable, cooldown, disabled_for_run,
}
use deep_research_agent.ProviderHealth.Record.{fail, expire, cooled_down}
use deep_research_agent.ProviderHealth.Tracker.{
  Tracker, state_of, state_or_unknown, tracked, record_failure, expire_cooldowns, or_now,
}
use deep_research_agent.ProviderHealth.Runs.{expiry, call, expire_all-get}
use deep_research_agent.ProviderHealth.Transitions.{Failure, failed}

module _ (fl : Floats) where
  open fl use {F}

  expire_record :
      (c u m moment : ℕ) (f : Failure F) (r : ProviderRecord F)
      → (fail fl c u m f.type f.latency_ms (or_now f.when f.clock) r).0.state ≡ unavailable
      → (expire fl moment (fail fl c u m f.type f.latency_ms (or_now f.when f.clock) r).0).state
        ≡ (if leb (or_now f.when f.clock + c) moment then cooldown else unavailable)
  unfolding fail expire
  expire_record c u m moment f r h = ground arith

  state_of-expire :
      (t : Tracker F) (name : String) (moment clock : ℕ)
      → state_of fl (call fl t (expiry (some moment) clock)) name
        ≡ state_or_unknown fl (Option.map (expire fl moment) (get name t.records))
  unfolding state_of expire_cooldowns
  state_of-expire t name moment clock =
      ap (state_or_unknown fl) (expire_all-get fl moment name t.records)

  pub get-failed :
      (t : Tracker F) (name : String) (f : Failure F)
      → get name (call fl t (failed fl name f)).records
        ≡ some
            (fail fl t.cooldown_time t.unavailable_streak t.max_probe_failures f.type f.latency_ms
              (or_now f.when f.clock)
              (tracked fl t name f.clock)).0
  unfolding record_failure
  get-failed t name f =
      rw
        (
          get-put name name
              (fail fl t.cooldown_time t.unavailable_streak t.max_probe_failures f.type f.latency_ms
                (or_now f.when f.clock) (tracked fl t name f.clock)).0
              t.records,
          ==_refl name,
        )
        refl

  -- A provider that a failure has made unavailable becomes ready for a probe at an expiry exactly
  -- when the cooldown has passed since that failure; before, it stays unavailable.
  pub cooldown_exact :
      (t : Tracker F) (name : String) (f : Failure F) (moment clock : ℕ)
      → let t' = call fl t (failed fl name f) in
        state_of fl t' name ≡ unavailable
        → state_of fl (call fl t' (expiry (some moment) clock)) name
          ≡ (if leb (or_now f.when f.clock + t.cooldown_time) moment then cooldown else unavailable)
  unfolding state_of
  cooldown_exact t name f moment clock h =
      let found = get-failed t name f in
      let known = ap (state_or_unknown fl) found in
      unfold state_of in
      (state_of-expire (call fl t (failed fl name f)) name moment clock
        ∙ ap (λ o. state_or_unknown fl (Option.map (expire fl moment) o)) found
        ∙ expire_record t.cooldown_time t.unavailable_streak t.max_probe_failures moment f
            (tracked fl t name f.clock) (sym known ∙ h))

  -- One failed probe, and the moment of the expiry that makes the provider ready again.
  pub record Probe : Type 0 where
    pub attempt : Failure F
    pub moment : ℕ

  abbrev pub probe : (c u m : ℕ) → Probe → ProviderRecord F → ProviderRecord F
  probe c u m p r =
      expire fl p.moment
        (fail fl c u m p.attempt.type p.attempt.latency_ms (or_now p.attempt.when p.attempt.clock)
          r).0

  pub probe_all : (c u m : ℕ) → List Probe → ProviderRecord F → ProviderRecord F
  probe_all c u m [] r = r
  probe_all c u m (p ∷ ps) r = probe_all c u m ps (probe c u m p r)

  -- the expiry comes after the cooldown
  abbrev pub IsLate : ℕ → Probe → Type 0
  IsLate c p = or_now p.attempt.when p.attempt.clock + c ≤ p.moment

  probe_step :
      (c u m : ℕ) (p : Probe) (r : ProviderRecord F)
      → r.state ≡ cooldown
      → IsLate c p
      → ((probe c u m p r).probe_failure_streak ≡ suc r.probe_failure_streak)
        × ((probe c u m p r).state
            ≡ (if leb m (suc r.probe_failure_streak) then disabled_for_run else cooldown))
  unfolding fail expire
  probe_step c u m p r h late = ground arith

  -- From the cooldown, failed probes keep the provider in the loop of cooldown and probe until
  -- their number, with those before, reaches the limit; then it is disabled.
  pub probes_disable :
      (c u m : ℕ) (ps : List Probe) (r : ProviderRecord F)
      → r.state ≡ cooldown
      → r.probe_failure_streak < m
      → All (IsLate c) ps
      → r.probe_failure_streak + length ps ≤ m
      → (probe_all c u m ps r).state
        ≡ (if leb m (r.probe_failure_streak + length ps) then disabled_for_run else cooldown)
  unfolding probe_all
  probes_disable c u m [] r h lt late le = ground arith
  probes_disable c u m (p ∷ []) r h lt late le = ground (arith, probe_step c u m p r h late.0)
  probes_disable c u m (p ∷ q ∷ ps) r h lt late le =
      let (streak, state) = probe_step c u m p r h late.0 in
      let again =
        probes_disable c u m (q ∷ ps) (probe c u m p r) (ground arith) (omega arith) late.1
          (omega arith) in
      ground (arith, again)

  expire_cases :
      (moment : ℕ) (r : ProviderRecord F)
      → ((expire fl moment r).state ≡ r.state)
        ⊎ ((expire fl moment r).state ≡ cooldown)
          × (r.state ≡ unavailable)
          × (until : ℕ) × (r.cooldown_until ≡ some until)
          × (until ≤ moment)
  unfolding expire
  expire_cases moment r = expire_at r.cooldown_until refl
    where
      expire_at :
          (o : Option ℕ)
          → r.cooldown_until ≡ o
          → ((expire fl moment r).state ≡ r.state)
            ⊎ ((expire fl moment r).state ≡ cooldown)
              × (r.state ≡ unavailable)
              × (until : ℕ) × (r.cooldown_until ≡ some until)
              × (until ≤ moment)
      expire_at none e = inl (ground arith)
      expire_at (some u) e = elim (Bool-cases (cooled_down fl moment r)) [
        | inl yes_cooled ↦ inr (ground arith, ground arith, u, e, ground arith)
        | inr not_cooled ↦ inl (ground arith)
      ]

  -- A failed attempt on a provider that was disabled for the run, such as one that was still in
  -- flight, makes it unavailable again if the failures reach the threshold, and the next expiry
  -- after the cooldown readies it for a probe.
  pub disabled_rearms :
      (c u m moment : ℕ) (f : Failure F) (r : ProviderRecord F)
      → r.state ≡ disabled_for_run
      → u ≤ suc r.failure_streak
      → or_now f.when f.clock + c ≤ moment
      → let r' = (fail fl c u m f.type f.latency_ms (or_now f.when f.clock) r).0 in
        (r'.state ≡ unavailable) × ((expire fl moment r').state ≡ cooldown)
  unfolding fail expire
  disabled_rearms c u m moment f r h long late = ground arith

  -- An expiry changes the state of a tracked provider only from unavailable to cooldown, and only
  -- when the deadline of its record has come.
  pub expiry_effect :
      (t : Tracker F) (name : String) (moment clock : ℕ) (r : ProviderRecord F)
      → get name t.records ≡ some r
      → let after = state_of fl (call fl t (expiry (some moment) clock)) name in
        (after ≡ state_of fl t name)
        ⊎ (after ≡ cooldown)
          × (state_of fl t name ≡ unavailable)
          × (until : ℕ) × (r.cooldown_until ≡ some until)
          × (until ≤ moment)
  unfolding state_of
  expiry_effect t name moment clock r h =
      let known : state_of fl t name ≡ r.state = ap (state_or_unknown fl) h in
      let after =
        state_of-expire t name moment clock
        ∙ ap (λ o. state_or_unknown fl (Option.map (expire fl moment) o)) h in
      elim (expire_cases moment r) [
        | inl same ↦ inl (after ∙ same ∙ sym known)
        | inr (cooled, was, u, at, le) ↦ inr (after ∙ cooled, known ∙ was, u, at, le)
      ]
