-- ===== src/Window/Examples.antt =====
-- A window with two outcomes that expire, and a full one.
use llm_go_sdk.Base.{
  List, [], arith, drop, false, length, refl, true, ℕ, ◌++◌, ◌+◌, ◌-◌, ◌/◌, ◌∷◌, ◌≡◌,
}
use llm_go_sdk.Base.Int.{pos}
use llm_go_sdk.Window.{SlidingWindow, new_sliding_window, record_outcome}
use llm_go_sdk.Window.Counts.{
  IsCounted, WindowCall, reads, records, window_run, window_run-IsCounted,
}
use llm_go_sdk.Window.Bounds.{IsBounded, record_outcome_halves, window_run-IsBounded}

abbrev outcomes : List (ℕ × WindowCall)
outcomes = (1, records true) ∷ (2, records false) ∷ (5, reads) ∷ (50, records true) ∷ []

window_run-IsCounted_example : IsCounted (window_run (new_sliding_window 0 10) outcomes)
window_run-IsCounted_example = window_run-IsCounted 0 10 outcomes

window_run-IsBounded_example : IsBounded (window_run (new_sliding_window 0 10) outcomes)
window_run-IsBounded_example = window_run-IsBounded 0 10 outcomes

abbrev full : SlidingWindow
full = record {
  successes = pos 1;
  failures = pos 1;
  window = 10;
  entries =
      record { timestamp = 1; success = true } ∷ record { timestamp = 2; success = false } ∷ [];
  max_capacity = 2;
  last_cleanup = 2;
}

record_outcome_halves_example :
    ((record_outcome 3 true full).entries
      ≡ drop (length full.entries - full.max_capacity / 2) full.entries
        ++ (record { timestamp = 3; success = true } ∷ []))
    × (length (record_outcome 3 true full).entries ≡ full.max_capacity / 2 + 1)
record_outcome_halves_example =
    record_outcome_halves 3 true full (omega arith) refl (refl, (refl, tt))
