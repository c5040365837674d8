-- ===== src/ProviderHealth/Payload/RoundTrip.antt =====
-- What is stored of a tracker is read back.
use deep_research_agent.Common.{
  ℕ, ◌-◌, ◌≤◌, ◌≡◌, refl, sym, ap, subst, ◌∙◌, inl, inr, Bool, Bool-cases, true, false, Option,
  none, some, List, [], ◌∷◌, ◌++◌, String, string_eq, ◌==◌, arith, length, drop, contains,
  Option-cases, All, IsDistinct, AreFresh, IsDistinct-AreFresh,
}
use mathlib.Core.List.{append_assoc, append-nil}
use deep_research_agent.Common.Floats.{Floats}
use deep_research_agent.Common.Dict.{get, put, keys, put-IsDistinct}
use deep_research_agent.ProviderHealth.Data.{
  ProviderHealthState, healthy, degraded, unavailable, cooldown, disabled_for_run,
  ProviderFailureType, ProviderRecord, new_record,
}
use deep_research_agent.ProviderHealth.Record.{succeed, fail, expire}
use deep_research_agent.ProviderHealth.Tracker.{
  Tracker, new_tracker, tracked, record_success, record_failure, expire_cooldowns, expire_all,
  or_now,
}
use deep_research_agent.ProviderHealth.Runs.{Call, success, failure, expiry, call, run}
use deep_research_agent.ProviderHealth.Invariant.{length-push_recent}
use deep_research_agent.ProviderHealth.Payload.{
  Times, state_value, state_named, datetime_from, time_value, record_to_payload,
  record_from_payload, records_to_payload, to_payload, restore_all, from_payload,
}

state_named-state_value : (s : ProviderHealthState) → state_named (state_value s) ≡ s
unfolding state_named
state_named-state_value healthy = refl
state_named-state_value degraded = refl
state_named-state_value unavailable = refl
state_named-state_value cooldown = refl
state_named-state_value ProviderHealthState.unknown = refl
state_named-state_value disabled_for_run = refl

module _ (fl : Floats) (times : Times) where
  open fl use {F}

  time_back : (t : Option ℕ) → datetime_from {F = F} times (some (time_value times t)) ≡ t
  time_back none = refl
  time_back (some t) = rw (times.isoformat-nonempty t) (times.fromisoformat-isoformat t)

  window_back : (bs : List Bool) → length bs ≤ 10 → drop (length bs - 10) bs ≡ bs
  window_back bs h = let zero_kept : length bs - 10 ≡ 0 = omega arith in rw zero_kept refl

  record_back :
      (r : ProviderRecord F) (name : String) (clock : ℕ)
      → r.provider_name ≡ name
      → length r.recent ≤ 10
      → record_from_payload fl times name (record_to_payload times r) clock ≡ r
  unfolding record_from_payload record_to_payload get
  record_back r name clock named window =
      simp
        (
          state_named-state_value r.state,
          time_back r.last_success_at,
          time_back r.last_failure_at,
          time_back r.cooldown_until,
          times.isoformat-nonempty r.updated_at,
          times.fromisoformat-isoformat r.updated_at,
          window_back r.recent window,
          sym named,
        )
        refl

  -- an entry is of the provider that its key names, and its window is no longer than kept
  abbrev IsKept : (String × ProviderRecord F) → Type 0
  IsKept (name, r) = (r.provider_name ≡ name) × (length r.recent ≤ 10)

  put_fresh :
      (k : String) (r : ProviderRecord F) (d : List (String × ProviderRecord F))
      → contains k (keys d) ≡ false
      → put k r d ≡ d ++ (k, r) ∷ []
  unfolding put
  put_fresh k r [] h = refl
  put_fresh k r ((j, w) ∷ d) h = ground (arith, put_fresh k r d)

  keys-append :
      (d : List (String × ProviderRecord F)) (k : String) (r : ProviderRecord F)
      → keys (d ++ (k, r) ∷ []) ≡ keys d ++ k ∷ []
  keys-append [] k r = refl
  keys-append ((j, w) ∷ d) k r = ap (λ (ks : List String). j ∷ ks) (keys-append d k r)

  restore_back :
      (rs before : List (String × ProviderRecord F)) (clock : ℕ)
      → All IsKept rs
      → AreFresh (keys before) (keys rs)
      → restore_all fl times (records_to_payload fl times rs) clock before ≡ before ++ rs
  unfolding restore_all records_to_payload
  restore_back [] before clock kept fresh = sym (append-nil before)
  restore_back ((k, r) ∷ rs) before clock kept fresh =
      let later = restore_all fl times (records_to_payload fl times rs) clock in
      ap (λ (x : ProviderRecord F). later (put k x before))
        (record_back r k clock kept.0.0 kept.0.1)
      ∙ ap later (put_fresh k r before fresh.0)
      ∙ restore_back rs (before ++ (k, r) ∷ []) clock kept.1 (rw (keys-append before k r) fresh.1)
      ∙ append_assoc before ((k, r) ∷ []) rs

  -- the entries of a tracker are kept, and no provider has two
  abbrev IsStorable : List (String × ProviderRecord F) → Type 0
  IsStorable rs = All IsKept rs × IsDistinct (keys rs)

  put-Kept :
      (k : String) (r : ProviderRecord F) (d : List (String × ProviderRecord F))
      → IsKept (k, r)
      → All IsKept d
      → All IsKept (put k r d)
  unfolding put
  put-Kept k r [] h kept = (h, tt)
  put-Kept k r ((j, w) ∷ d) h kept = elim (Bool-cases (j == k)) [
    | inl e ↦ let same = (string_eq.same_iff j k).0 e in rw e ((h.0 ∙ sym same, h.1), kept.1)
    | inr e ↦ rw e (kept.0, put-Kept k r d h kept.1)
  ]

  expire_all-Kept :
      (moment : ℕ) (rs : List (String × ProviderRecord F))
      → All IsKept rs
      → All IsKept (expire_all fl moment rs)
  unfolding expire_all expire
  expire_all-Kept moment [] h = tt
  expire_all-Kept moment ((k, r) ∷ rs) h = (ground (arith, h.0), expire_all-Kept moment rs h.1)

  keys-expire_all :
      (moment : ℕ) (rs : List (String × ProviderRecord F))
      → keys (expire_all fl moment rs) ≡ keys rs
  unfolding expire_all
  keys-expire_all moment [] = refl
  keys-expire_all moment ((k, r) ∷ rs) =
      ap (λ (ks : List String). k ∷ ks) (keys-expire_all moment rs)

  get-Kept :
      (k : String) (rs : List (String × ProviderRecord F)) (r : ProviderRecord F)
      → All IsKept rs
      → get k rs ≡ some r
      → IsKept (k, r)
  unfolding get
  get-Kept k [] r h e = absurd (cc e)
  get-Kept k ((j, w) ∷ rs) r h e = elim (Bool-cases (j == k)) [
    | inl p ↦
        let same = (string_eq.same_iff j k).0 p in
        let found : some w ≡ some r = rw p at e in
        let w_is : w ≡ r = cc found in
        subst (λ (x : ProviderRecord F). IsKept (k, x)) w_is (h.0.0 ∙ same, h.0.1)
    | inr p ↦ get-Kept k rs r h.1 (rw p at e)
  ]

  tracked-Kept :
      (t : Tracker F) (name : String) (clock : ℕ)
      → All IsKept t.records
      → IsKept (name, tracked fl t name clock)
  unfolding tracked new_record
  tracked-Kept t name clock h = elim (Option-cases (get name t.records)) [
    | inl e ↦ rw e (refl, omega arith)
    | inr (r, e) ↦ rw e (get-Kept name t.records r h e)
  ]

  succeed-Kept :
      (name : String) (latency : F) (now : ℕ) (r : ProviderRecord F)
      → IsKept (name, r)
      → IsKept (name, (succeed fl latency now r).0)
  unfolding succeed
  succeed-Kept name latency now r h = ground (arith, h, length-push_recent r.recent false)

  fail-Kept :
      (name : String) (cooldown_time u m : ℕ) (type : ProviderFailureType) (latency : F) (now : ℕ)
      (r : ProviderRecord F)
      → IsKept (name, r)
      → IsKept (name, (fail fl cooldown_time u m type latency now r).0)
  unfolding fail
  fail-Kept name cooldown_time u m type latency now r h =
      ground (arith, h, length-push_recent r.recent true)

  put-Storable :
      (k : String) (r : ProviderRecord F) (d : List (String × ProviderRecord F))
      → IsKept (k, r)
      → IsStorable d
      → IsStorable (put k r d)
  put-Storable k r d h s = (put-Kept k r d h s.0, put-IsDistinct k r d s.1)

  call-Storable :
      (t : Tracker F) (c : Call F) → IsStorable t.records → IsStorable (call fl t c).records
  unfolding record_success record_failure expire_cooldowns
  call-Storable t (success name latency when clock) h =
      put-Storable name _ t.records
        (succeed-Kept name latency (or_now when clock) (tracked fl t name clock)
          (tracked-Kept t name clock h.0))
        h
  call-Storable t (failure name type latency when clock) h =
      put-Storable name _ t.records
        (fail-Kept name t.cooldown_time t.unavailable_streak t.max_probe_failures type latency
          (or_now when clock) (tracked fl t name clock) (tracked-Kept t name clock h.0))
        h
  call-Storable t (expiry now clock) h = (
    expire_all-Kept (or_now now clock) t.records h.0,
    rw (keys-expire_all (or_now now clock) t.records) h.1,
  )

  run-Storable :
      (t : Tracker F) (cs : List (Call F)) → IsStorable t.records → IsStorable (run fl t cs).records
  unfolding run
  run-Storable t [] h = h
  run-Storable t (c ∷ cs) h = run-Storable (call fl t c) cs (call-Storable t c h)

  -- no call changes the thresholds
  run_thresholds :
      (t : Tracker F) (cs : List (Call F))
      → ((run fl t cs).cooldown_time ≡ t.cooldown_time)
        × ((run fl t cs).unavailable_streak ≡ t.unavailable_streak)
        × ((run fl t cs).max_probe_failures ≡ t.max_probe_failures)
  unfolding run record_success record_failure expire_cooldowns
  run_thresholds t [] = (refl, refl, refl)
  run_thresholds t (success name latency when clock ∷ cs) =
      run_thresholds (call fl t (success name latency when clock)) cs
  run_thresholds t (failure name type latency when clock ∷ cs) =
      run_thresholds (call fl t (failure name type latency when clock)) cs
  run_thresholds t (expiry now clock ∷ cs) = run_thresholds (call fl t (expiry now clock)) cs

  -- A tracker that any calls have led to is read back from its payload, with the same thresholds,
  -- as it was.
  pub from_payload-to_payload :
      (cooldown_time unavailable_after probes clock : ℕ) (cs : List (Call F))
      → from_payload fl times
          (to_payload fl times (run fl (new_tracker fl cooldown_time unavailable_after probes) cs))
          cooldown_time
          unavailable_after
          probes
          clock
        ≡ run fl (new_tracker fl cooldown_time unavailable_after probes) cs
  unfolding from_payload to_payload new_tracker
  from_payload-to_payload cooldown_time unavailable_after probes clock cs =
      let t0 = new_tracker fl cooldown_time unavailable_after probes in
      let t = run fl t0 cs in
      let stored = run-Storable t0 cs (tt, tt) in
      let records_back =
        restore_back t.records [] clock stored.0
          (IsDistinct-AreFresh [] (keys t.records) stored.1 (λ x m. refl)) in
      let same = run_thresholds t0 cs in
      λ i. record {
        records = records_back i;
        cooldown_time = sym same.0 i;
        unavailable_streak = sym same.1 i;
        max_probe_failures = sym same.2 i;
      }
