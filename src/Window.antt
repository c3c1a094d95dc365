-- ===== src/Window.antt =====
-- pkg/observability/metrics_sliding_window.go: success and failure counts over a window of time. The
-- counters are int64 and are taken not to overflow; they can go below 0, so they are integers here.
-- The capacity of the slice, which only saves allocations, is left out. Times are nanoseconds.
use llm_go_sdk.Base.{
  Bool, List, [], drop, false, if◌then◌else◌, leb, length, ltb, take, true, ℕ, ◌&&◌, ◌++◌, ◌+◌, ◌-◌,
  ◌/◌, ◌∷◌,
}
use llm_go_sdk.Base.Int.{is_zero, pos, pred_ℤ, suc_ℤ, ℤ, ◌+ℤ◌}
pub mod Counts
pub mod Bounds
mod Examples

pub record WindowEntry : Type 0 where
  pub timestamp : ℕ
  pub success : Bool

pub record SlidingWindow : Type 0 where
  pub successes : ℤ
  pub failures : ℤ
  pub window : ℕ
  pub entries : List WindowEntry
  pub max_capacity : ℕ
  pub last_cleanup : ℕ

abbrev pub default_max_window_capacity : ℕ
default_max_window_capacity = 10000

unfoldable pub new_sliding_window : ℕ → ℕ → SlidingWindow
new_sliding_window now duration = record {
  successes = pos 0;
  failures = pos 0;
  window = duration;
  entries = [];
  max_capacity = default_max_window_capacity;
  last_cleanup = now;
}

unfoldable pub uncount : WindowEntry → SlidingWindow → SlidingWindow
uncount e w = elim e.success [
  | true ↦ record w { successes = pred_ℤ w.successes }
  | false ↦ record w { failures = pred_ℤ w.failures }
]

unfoldable pub uncount_all : List WindowEntry → SlidingWindow → SlidingWindow
unfolding uncount
uncount_all [] w = w
uncount_all (e ∷ es) w = uncount_all es (uncount e w)

-- `e.timestamp.After(cutoff)`, where the cutoff is `now.Add(-w.window)`.
abbrev pub is_live : ℕ → ℕ → WindowEntry → Bool
is_live now window e = ltb now (e.timestamp + window)

-- The loop over the expired entries, and the slice from the first live one.
unfoldable pub expire : ℕ → List WindowEntry → SlidingWindow → SlidingWindow
unfolding uncount
expire now [] w = record w { entries = [] }
expire now (e ∷ es) w =
    let rest = expire now es (uncount e w) in
    if is_live now w.window e then record w { entries = e ∷ es } else rest

-- At capacity only the most recent half is kept.
unfoldable pub keep_half : SlidingWindow → SlidingWindow
unfolding uncount_all
keep_half w =
    let keep_count = w.max_capacity / 2 in
    let surplus = length w.entries - keep_count in
    if leb w.max_capacity (length w.entries) && ltb 0 keep_count
    then record (uncount_all (take surplus w.entries) w) { entries = drop surplus w.entries }
    else w

unfoldable pub cleanup_locked : ℕ → SlidingWindow → SlidingWindow
unfolding expire keep_half
cleanup_locked now w = record (keep_half (expire now w.entries w)) { last_cleanup = now }

-- The oldest entry makes room. On an empty slice `w.entries[0]` would panic; that needs a capacity of
-- 0, which no constructor gives.
unfoldable pub drop_oldest : SlidingWindow → SlidingWindow
unfolding uncount
drop_oldest w = elim w.entries [ [] ↦ w | e ∷ es ↦ uncount e (record w { entries = es }) ]

unfoldable pub add_entry : ℕ → Bool → SlidingWindow → SlidingWindow
add_entry now success w =
    let w' = record w {
      entries = w.entries ++ (record { timestamp = now; success = success } ∷ []);
    } in
    elim success [
      | true ↦ record w' { successes = suc_ℤ w.successes }
      | false ↦ record w' { failures = suc_ℤ w.failures }
    ]

unfoldable pub make_room : SlidingWindow → SlidingWindow
unfolding drop_oldest
make_room w = if leb w.max_capacity (length w.entries) then drop_oldest w else w

unfoldable pub record_outcome : ℕ → Bool → SlidingWindow → SlidingWindow
unfolding cleanup_locked make_room add_entry
record_outcome now success w = add_entry now success (make_room (cleanup_locked now w))

-- The cleanup of a reading, after a tenth of the window without one.
unfoldable pub idle_cleanup : ℕ → SlidingWindow → SlidingWindow
unfolding cleanup_locked
idle_cleanup now w = if ltb (w.window / 10) (now - w.last_cleanup) then cleanup_locked now w else w

-- The quotient of a reading, as its two numbers.
unfoldable pub rate_of : SlidingWindow → ℤ × ℤ
rate_of w =
    let total = w.successes +ℤ w.failures in
    if is_zero total then (pos 1, pos 1) else (w.successes, total)

-- `SuccessRate`.
unfoldable pub success_rate : ℕ → SlidingWindow → SlidingWindow × (ℤ × ℤ)
unfolding idle_cleanup rate_of
success_rate now w = let w' = idle_cleanup now w in (w', rate_of w')
