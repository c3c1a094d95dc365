-- ===== src/Window/Bounds.antt =====
-- How many entries the sliding window holds.
use llm_go_sdk.Base.{
  All, Bool, Bool-cases, List, [], ap, arith, drop, false, inl, inr, leb, length, length-append,
  length-drop, ltb, refl, take, true, ℕ, ◌++◌, ◌+◌, ◌-◌, ◌/◌, ◌<◌, ◌∙◌, ◌∷◌, ◌≡◌, ◌≤◌, ◌⊎◌,
}
use llm_go_sdk.Window.{
  SlidingWindow, WindowEntry, add_entry, cleanup_locked, expire, idle_cleanup, is_live, keep_half,
  make_room, new_sliding_window, record_outcome, success_rate, uncount, uncount_all,
}
use llm_go_sdk.Window.Counts.{WindowCall, reads, records, window_run, window_step}

uncount_capacity :
    (e : WindowEntry) (w : SlidingWindow) → (uncount e w).max_capacity ≡ w.max_capacity
unfolding uncount
uncount_capacity e w = elim (Bool-cases e.success) [
  | inl t ↦ rw (t, uncount)
  | inr f ↦ rw (f, uncount)
]

uncount_all_capacity :
    (es : List WindowEntry) (w : SlidingWindow) → (uncount_all es w).max_capacity ≡ w.max_capacity
unfolding uncount_all
uncount_all_capacity [] w = refl
uncount_all_capacity (e ∷ es) w = uncount_all_capacity es (uncount e w) ∙ uncount_capacity e w

expire-length :
    (now : ℕ) (es : List WindowEntry) (w : SlidingWindow)
    → (length (expire now es w).entries ≤ length es)
      × ((expire now es w).max_capacity ≡ w.max_capacity)
unfolding expire
expire-length now [] w = (omega arith, refl)
expire-length now (e ∷ es) w =
    let rest = expire-length now es (uncount e w) in
    elim (Bool-cases (is_live now w.window e)) [
      | inl t ↦ rw (t, expire) (omega arith, refl)
      | inr f ↦ rw (f, expire) (omega arith, rest.1 ∙ uncount_capacity e w)
    ]

-- At capacity the newest half stays, and below it everything.
keep_half_cases :
    (w : SlidingWindow)
    → ((w.max_capacity ≤ length w.entries)
        × (0 < w.max_capacity / 2)
        × (length (keep_half w).entries
            ≡ length w.entries - (length w.entries - w.max_capacity / 2))
        × ((keep_half w).entries ≡ drop (length w.entries - w.max_capacity / 2) w.entries)
        × ((keep_half w).max_capacity ≡ w.max_capacity))
      ⊎ (((length w.entries < w.max_capacity) ⊎ (w.max_capacity / 2 ≡ 0)) × (keep_half w ≡ w))
unfolding keep_half
keep_half_cases w =
    let surplus = length w.entries - w.max_capacity / 2 in
    elim (Bool-cases (leb w.max_capacity (length w.entries))) [
      | inl t ↦ elim (Bool-cases (ltb 0 (w.max_capacity / 2))) [
        | inl k ↦ inl (
          ground arith,
          ground arith,
          rw (t, k, keep_half) (length-drop surplus w.entries),
          rw (t, k, keep_half) refl,
          rw (t, k, keep_half) (uncount_all_capacity (take surplus w.entries) w),
        )
        | inr k ↦ inr (inr (ground arith), rw (t, k, keep_half))
      ]
      | inr f ↦ inr (inl (ground arith), rw (f, keep_half))
    ]

-- Room for one more entry, after a cleanup with a capacity of 2 at least.
keep_half_room :
    (w : SlidingWindow)
    → 2 ≤ w.max_capacity
    → length w.entries ≤ w.max_capacity
    → (length (keep_half w).entries < w.max_capacity)
      × ((keep_half w).max_capacity ≡ w.max_capacity)
keep_half_room w c h = elim (keep_half_cases w) [
  | inl (full, half, len, _, cap) ↦ (omega arith, cap)
  | inr (room, same) ↦ rw same (elim room [ inl l ↦ (l, refl) | inr z ↦ absurd (omega arith) ])
]

-- Enough capacity, and not more entries than it.
abbrev pub IsBounded : SlidingWindow → Type 0
IsBounded w = (2 ≤ w.max_capacity) × (length w.entries ≤ w.max_capacity)

cleanup_locked_room :
    (now : ℕ) (w : SlidingWindow)
    → IsBounded w
    → (length (cleanup_locked now w).entries < w.max_capacity)
      × ((cleanup_locked now w).max_capacity ≡ w.max_capacity)
unfolding cleanup_locked
cleanup_locked_room now w h =
    let live = expire-length now w.entries w in
    let room =
      keep_half_room (expire now w.entries w) (omega (arith, live.1)) (omega (arith, live)) in
    (omega (arith, live.1, room.0), room.1 ∙ live.1)

make_room_room : (w : SlidingWindow) → length w.entries < w.max_capacity → make_room w ≡ w
unfolding make_room
make_room_room w h =
    let skip : leb w.max_capacity (length w.entries) ≡ false = ground arith in rw (skip, make_room)

add_entry-length :
    (now : ℕ) (b : Bool) (w : SlidingWindow)
    → (length (add_entry now b w).entries ≡ length w.entries + 1)
      × ((add_entry now b w).max_capacity ≡ w.max_capacity)
unfolding add_entry
add_entry-length now true w = (length-append w.entries _ ∙ omega arith, refl)
add_entry-length now false w = (length-append w.entries _ ∙ omega arith, refl)

record_outcome_room :
    (now : ℕ) (b : Bool) (w : SlidingWindow)
    → IsBounded w
    → (length (record_outcome now b w).entries ≡ length (cleanup_locked now w).entries + 1)
      × ((record_outcome now b w).max_capacity ≡ w.max_capacity)
unfolding record_outcome
record_outcome_room now b w h =
    let room = cleanup_locked_room now w h in
    let c = cleanup_locked now w in
    let same : make_room c ≡ c = make_room_room c (omega (arith, room)) in
    let add = add_entry-length now b c in (rw same add.0, (rw same add.1) ∙ room.1)

idle_cleanup_bound :
    (now : ℕ) (w : SlidingWindow)
    → IsBounded w
    → (length (idle_cleanup now w).entries ≤ w.max_capacity)
      × ((idle_cleanup now w).max_capacity ≡ w.max_capacity)
unfolding idle_cleanup
idle_cleanup_bound now w h =
    let room = cleanup_locked_room now w h in
    elim (Bool-cases (ltb (w.window / 10) (now - w.last_cleanup))) [
      | inl t ↦ rw (t, idle_cleanup) (omega (arith, room.0), room.1)
      | inr f ↦ rw (f, idle_cleanup) (h.1, refl)
    ]

window_step-IsBounded :
    (w : SlidingWindow) (c : ℕ × WindowCall) → IsBounded w → IsBounded (window_step w c)
unfolding window_step success_rate
window_step-IsBounded w (now, records b) h =
    let step = record_outcome_room now b w h in
    let room = cleanup_locked_room now w h in (omega (arith, step.1), omega (arith, step, room.0))
window_step-IsBounded w (now, reads) h =
    let kept = idle_cleanup_bound now w h in (omega (arith, kept.1), omega (arith, kept))

window_run-IsBounded' :
    (w : SlidingWindow) (cs : List (ℕ × WindowCall)) → IsBounded w → IsBounded (window_run w cs)
unfolding window_run
window_run-IsBounded' w [] h = h
window_run-IsBounded' w (c ∷ cs) h =
    window_run-IsBounded' (window_step w c) cs (window_step-IsBounded w c h)

-- A new window never holds more entries than its capacity, whatever outcomes and readings come.
pub window_run-IsBounded :
    (now duration : ℕ) (cs : List (ℕ × WindowCall))
    → IsBounded (window_run (new_sliding_window now duration) cs)
unfolding new_sliding_window
window_run-IsBounded now duration cs = window_run-IsBounded' _ cs (omega arith, omega arith)

-- No entry has expired.
abbrev pub AllLive : ℕ → SlidingWindow → Type 0
AllLive now w = All (λ e. is_live now w.window e ≡ true) w.entries

expire_live :
    (now : ℕ) (es : List WindowEntry) (w : SlidingWindow)
    → All (λ e. is_live now w.window e ≡ true) es
    → w.entries ≡ es
    → expire now es w ≡ w
unfolding expire
expire_live now [] w h eq = rw⁻¹ eq refl
expire_live now (e ∷ es) w h eq = rw (h.0, expire) (rw⁻¹ eq refl)

add_entry-entries :
    (now : ℕ) (b : Bool) (w : SlidingWindow)
    → (add_entry now b w).entries ≡ w.entries ++ (record { timestamp = now; success = b } ∷ [])
unfolding add_entry
add_entry-entries now true w = refl
add_entry-entries now false w = refl

-- A full window of live entries, at the next outcome, keeps the newest `max_capacity / 2` of its
-- entries in their order and puts the outcome behind them: it then covers the last
-- `max_capacity / 2 + 1` outcomes, not the last `max_capacity`.
pub record_outcome_halves :
    (now : ℕ) (b : Bool) (w : SlidingWindow)
    → 2 ≤ w.max_capacity
    → length w.entries ≡ w.max_capacity
    → AllLive now w
    → ((record_outcome now b w).entries
        ≡ drop (length w.entries - w.max_capacity / 2) w.entries
          ++ (record { timestamp = now; success = b } ∷ []))
      × (length (record_outcome now b w).entries ≡ w.max_capacity / 2 + 1)
unfolding cleanup_locked record_outcome
record_outcome_halves now b w c full live =
    let same : expire now w.entries w ≡ w = expire_live now w.entries w live refl in
    let step = (record_outcome_room now b w (c, omega arith)).0 in
    let clean : length (cleanup_locked now w).entries ≡ length (keep_half w).entries =
      rw (same, cleanup_locked) in
    let halved : (cleanup_locked now w).entries ≡ (keep_half w).entries =
      rw (same, cleanup_locked) in
    let cl = cleanup_locked now w in
    let room = cleanup_locked_room now w (c, omega arith) in
    let unmoved : make_room cl ≡ cl = make_room_room cl (omega (arith, room)) in
    let added = add_entry-entries now b cl in
    elim (keep_half_cases w) [
      | inl (_, _, len, kept, _) ↦ (
        rw (unmoved, record_outcome)
            (added
              ∙ ap (λ es. es ++ (record { timestamp = now; success = b } ∷ [])) (halved ∙ kept)),
        omega (arith, step, clean),
      )
      | inr (room, _) ↦ elim room [ inl l ↦ absurd (omega arith) | inr z ↦ absurd (omega arith) ]
    ]
