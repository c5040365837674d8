-- ===== src/ProviderHealth/Payload/Examples.antt =====
-- A stored tracker, with times that a test can compute with.
use text.Mathlib.TextLemmas.{cons≢nil}
use deep_research_agent.Common.{
  ℕ, suc, ◌-◌, ◌≡◌, ap, inl, inr, Bool-cases, false, Option, none, some, List, [], ◌∷◌, String,
  string_eq, ◌==◌, arith,
}
use deep_research_agent.Common.Micros.{micros}
use deep_research_agent.Common.Uuids.{strokes, count, count-strokes}
use deep_research_agent.ProviderHealth.Data.{timeout}
use deep_research_agent.ProviderHealth.Tracker.{new_tracker}
use deep_research_agent.ProviderHealth.Runs.{Call, success, failure, expiry, run}
use deep_research_agent.ProviderHealth.Payload.{Times, to_payload, from_payload}
use deep_research_agent.ProviderHealth.Payload.RoundTrip.{from_payload-to_payload}

-- a time is written with one stroke more than it counts
abbrev written : ℕ → String
written t = strokes (suc t)

abbrev read_back : String → Option ℕ
read_back s = some (count s - 1)

read_back-written : (t : ℕ) → read_back (written t) ≡ some t
read_back-written t = rw (count-strokes (suc t)) (ap some (omega arith))

written-nonempty : (t : ℕ) → (written t == "") ≡ false
unfolding strokes
written-nonempty t = elim (Bool-cases (written t == "")) [
  | inl e ↦ absurd (cons≢nil ((string_eq.same_iff (written t) "").0 e))
  | inr e ↦ e
]

abbrev stroke_times : Times
stroke_times = record {
  isoformat = written;
  fromisoformat = read_back;
  fromisoformat-isoformat = read_back-written;
  isoformat-nonempty = written-nonempty;
}

abbrev history : List (Call ℕ)
history =
    success "bing" 300000 (some 20) 20
    ∷ failure "quark" timeout 0 (some 30) 30
    ∷ expiry none 40
    ∷ []

from_payload-to_payload_example :
    from_payload micros stroke_times
      (to_payload micros stroke_times (run micros (new_tracker micros 15000000 3 3) history))
      15000000
      3
      3
      50
    ≡ run micros (new_tracker micros 15000000 3 3) history
from_payload-to_payload_example =
    from_payload-to_payload micros stroke_times 15000000 3 3 50 history
