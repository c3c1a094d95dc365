-- ===== src/Window/Counts.antt =====
-- The counters of the sliding window count its entries: cleaning and recording keep that, so the
-- counters never go below 0.
use llm_go_sdk.Base.{
  Bool, Bool-cases, List, [], ap, arith, drop, false, if◌then◌else◌, inl, inr, leb, length,
  list_cases, ltb, refl, subst, suc, sym, take, take-append-drop, true, ℕ, ◌&&◌, ◌++◌, ◌+◌, ◌-◌,
  ◌/◌, ◌<◌, ◌∙◌, ◌∷◌, ◌≡◌, ◌≤◌, ◌⊎◌,
}
use llm_go_sdk.Base.Int.{pos, pos_add, suc_ℤ, ◌+ℤ◌}
use llm_go_sdk.Window.{
  SlidingWindow, WindowEntry, add_entry, cleanup_locked, drop_oldest, expire, idle_cleanup, is_live,
  keep_half, make_room, new_sliding_window, rate_of, record_outcome, success_rate, uncount,
  uncount_all,
}

-- The entries with a success, and those without.
abbrev pub hits : List WindowEntry → ℕ
hits [] = 0
hits (e ∷ es) = (if e.success then 1 else 0) + hits es

abbrev pub misses : List WindowEntry → ℕ
misses [] = 0
misses (e ∷ es) = (if e.success then 0 else 1) + misses es

-- The counters count these entries, whether or not they are the window's.
Tally : List WindowEntry → SlidingWindow → Type 0
Tally es w = (w.successes ≡ pos (hits es)) × (w.failures ≡ pos (misses es))

-- Each counter counts the entries of its outcome.
abbrev pub IsCounted : SlidingWindow → Type 0
IsCounted w = (w.successes ≡ pos (hits w.entries)) × (w.failures ≡ pos (misses w.entries))

uncount-Tally :
    (e : WindowEntry) (es : List WindowEntry) (w : SlidingWindow)
    → Tally (e ∷ es) w
    → Tally es (uncount e w)
unfolding uncount Tally
uncount-Tally e es w h = elim (Bool-cases e.success) [
  | inl t ↦
      (let s : pos (1 + hits es) ≡ pos (suc (hits es)) = ap pos (omega arith) in
        let k : w.successes ≡ pos (suc (hits es)) = (rw t at h.0) ∙ s in
        let m : w.failures ≡ pos (misses es) = (rw t at h.1) ∙ ap pos (omega arith) in
        rw (t, uncount) (rw k, m))
  | inr f ↦
      (let k : w.failures ≡ pos (suc (misses es)) = (rw f at h.1) ∙ ap pos (omega arith) in
        let m : w.successes ≡ pos (hits es) = (rw f at h.0) ∙ ap pos (omega arith) in
        rw (f, uncount) (m, rw k))
]

uncount_all-Tally :
    (es fs : List WindowEntry) (w : SlidingWindow)
    → Tally (es ++ fs) w
    → Tally fs (uncount_all es w)
unfolding uncount_all
uncount_all-Tally [] fs w h = h
uncount_all-Tally (e ∷ es) fs w h =
    uncount_all-Tally es fs (uncount e w) (uncount-Tally e (es ++ fs) w h)

expire-IsCounted :
    (now : ℕ) (es : List WindowEntry) (w : SlidingWindow) → Tally es w → IsCounted (expire now es w)
unfolding expire Tally
expire-IsCounted now [] w h = h
expire-IsCounted now (e ∷ es) w h = elim (Bool-cases (is_live now w.window e)) [
  | inl t ↦ rw (t, expire) h
  | inr f ↦ rw (f, expire) (expire-IsCounted now es (uncount e w) (uncount-Tally e es w h))
]

keep_half-IsCounted : (w : SlidingWindow) → IsCounted w → IsCounted (keep_half w)
unfolding keep_half Tally
keep_half-IsCounted w h =
    let surplus = length w.entries - w.max_capacity / 2 in
    let split = take-append-drop surplus w.entries in
    elim (Bool-cases (leb w.max_capacity (length w.entries) && ltb 0 (w.max_capacity / 2))) [
      | inl t ↦
          rw (t, keep_half)
            (uncount_all-Tally (take surplus w.entries) (drop surplus w.entries) w
              (subst (λ es. Tally es w) (sym split) h))
      | inr f ↦ rw (f, keep_half) h
    ]

cleanup_locked-IsCounted :
    (now : ℕ) (w : SlidingWindow) → IsCounted w → IsCounted (cleanup_locked now w)
unfolding cleanup_locked Tally
cleanup_locked-IsCounted now w h =
    keep_half-IsCounted (expire now w.entries w) (expire-IsCounted now w.entries w h)

pub uncount_entries : (e : WindowEntry) (w : SlidingWindow) → (uncount e w).entries ≡ w.entries
unfolding uncount
uncount_entries e w = elim (Bool-cases e.success) [
  | inl t ↦ rw (t, uncount)
  | inr f ↦ rw (f, uncount)
]

drop_oldest-IsCounted : (w : SlidingWindow) → IsCounted w → IsCounted (drop_oldest w)
unfolding drop_oldest Tally
drop_oldest-IsCounted w h = elim (list_cases w.entries) [
  | inl n ↦ rw (n, drop_oldest) h
  | inr (e, es, n) ↦
      (let kept : (uncount e (record w { entries = es })).entries ≡ es = uncount_entries e _ in
        rw (n, drop_oldest)
          (subst (λ fs. Tally fs (uncount e (record w { entries = es }))) (sym kept)
            (uncount-Tally e es (record w { entries = es }) (rw n at h))))
]

make_room-IsCounted : (w : SlidingWindow) → IsCounted w → IsCounted (make_room w)
unfolding make_room
make_room-IsCounted w h = elim (Bool-cases (leb w.max_capacity (length w.entries))) [
  | inl t ↦ rw (t, make_room) (drop_oldest-IsCounted w h)
  | inr f ↦ rw (f, make_room) h
]

hits-snoc :
    (es : List WindowEntry) (e : WindowEntry)
    → hits (es ++ (e ∷ [])) ≡ (if e.success then 1 else 0) + hits es
hits-snoc [] e = refl
hits-snoc (x ∷ es) e = omega (arith, hits-snoc es e)

misses-snoc :
    (es : List WindowEntry) (e : WindowEntry)
    → misses (es ++ (e ∷ [])) ≡ (if e.success then 0 else 1) + misses es
misses-snoc [] e = refl
misses-snoc (x ∷ es) e = omega (arith, misses-snoc es e)

add_entry-IsCounted :
    (now : ℕ) (b : Bool) (w : SlidingWindow) → IsCounted w → IsCounted (add_entry now b w)
unfolding add_entry
add_entry-IsCounted now true w h = (
  ap suc_ℤ h.0
      ∙ ap pos (omega (arith, hits-snoc w.entries (record { timestamp = now; success = true }))),
  h.1 ∙ ap pos (omega (arith, misses-snoc w.entries (record { timestamp = now; success = true }))),
)
add_entry-IsCounted now false w h = (
  h.0 ∙ ap pos (omega (arith, hits-snoc w.entries (record { timestamp = now; success = false }))),
  ap suc_ℤ h.1
      ∙ ap pos (omega (arith, misses-snoc w.entries (record { timestamp = now; success = false }))),
)

record_outcome-IsCounted :
    (now : ℕ) (b : Bool) (w : SlidingWindow) → IsCounted w → IsCounted (record_outcome now b w)
unfolding record_outcome
record_outcome-IsCounted now b w h =
    add_entry-IsCounted now b _ (make_room-IsCounted _ (cleanup_locked-IsCounted now w h))

idle_cleanup-IsCounted :
    (now : ℕ) (w : SlidingWindow) → IsCounted w → IsCounted (idle_cleanup now w)
unfolding idle_cleanup
idle_cleanup-IsCounted now w h = elim (Bool-cases (ltb (w.window / 10) (now - w.last_cleanup))) [
  | inl t ↦ rw (t, idle_cleanup) (cleanup_locked-IsCounted now w h)
  | inr f ↦ rw (f, idle_cleanup) h
]

-- The calls on a window: an outcome, or a reading.
pub data WindowCall : Type 0 where
  records : Bool → WindowCall
  reads : WindowCall

unfoldable pub window_step : SlidingWindow → ℕ × WindowCall → SlidingWindow
window_step w (now, records b) = record_outcome now b w
window_step w (now, reads) = (success_rate now w).0

unfoldable pub window_run : SlidingWindow → List (ℕ × WindowCall) → SlidingWindow
window_run w [] = w
window_run w (c ∷ cs) = window_run (window_step w c) cs

window_step-IsCounted :
    (w : SlidingWindow) (c : ℕ × WindowCall) → IsCounted w → IsCounted (window_step w c)
unfolding window_step success_rate
window_step-IsCounted w (now, records b) h = record_outcome-IsCounted now b w h
window_step-IsCounted w (now, reads) h = idle_cleanup-IsCounted now w h

window_run-IsCounted' :
    (w : SlidingWindow) (cs : List (ℕ × WindowCall)) → IsCounted w → IsCounted (window_run w cs)
unfolding window_run
window_run-IsCounted' w [] h = h
window_run-IsCounted' w (c ∷ cs) h =
    window_run-IsCounted' (window_step w c) cs (window_step-IsCounted w c h)

-- A new window, after any outcomes and readings at any times, counts in each counter the entries that
-- it holds with that outcome; so neither counter is ever negative, however the entries expired.
pub window_run-IsCounted :
    (now duration : ℕ) (cs : List (ℕ × WindowCall))
    → IsCounted (window_run (new_sliding_window now duration) cs)
unfolding new_sliding_window
window_run-IsCounted now duration cs = window_run-IsCounted' _ cs (refl, refl)

hits-misses : (es : List WindowEntry) → hits es + misses es ≡ length es
hits-misses [] = refl
hits-misses (e ∷ es) = ground (arith, hits-misses es)

rate_of_share :
    (w : SlidingWindow)
    → IsCounted w
    → ((w.entries ≡ []) × (rate_of w ≡ (pos 1, pos 1)))
      ⊎ ((0 < length w.entries)
          × (rate_of w ≡ (pos (hits w.entries), pos (length w.entries)))
          × (hits w.entries ≤ length w.entries))
unfolding rate_of
rate_of_share w h =
    let total : w.successes +ℤ w.failures ≡ pos (length w.entries) =
      rw (h.0, h.1, pos_add (hits w.entries) (misses w.entries), hits-misses w.entries) in
    elim (list_cases w.entries) [
      | inl n ↦
          (let z : w.successes +ℤ w.failures ≡ pos 0 = total ∙ rw n in inl (n, rw (z, rate_of)))
      | inr (e, es, n) ↦
          (let z : w.successes +ℤ w.failures ≡ pos (suc (length es)) = total ∙ rw n in
            inr (
              rw n (omega arith),
              rw (z, rate_of, n)
                  (ap (λ s. (s, pos (suc (length es)))) (h.0 ∙ ap (λ fs. pos (hits fs)) n)),
              omega (arith, hits-misses w.entries),
            ))
    ]

-- A reading is a fraction between 0 and 1, and a window with no entry reads 1: after any calls the
-- rate is the share of successes among the entries that are left.
pub success_rate_share :
    (now : ℕ) (w : SlidingWindow)
    → IsCounted w
    → (((success_rate now w).0.entries ≡ []) × ((success_rate now w).1 ≡ (pos 1, pos 1)))
      ⊎ ((0 < length (success_rate now w).0.entries)
          × ((success_rate now w).1 ≡ (
            pos (hits (success_rate now w).0.entries),
            pos (length (success_rate now w).0.entries),
          ))
          × (hits (success_rate now w).0.entries ≤ length (success_rate now w).0.entries))
unfolding success_rate
success_rate_share now w h = rate_of_share (idle_cleanup now w) (idle_cleanup-IsCounted now w h)
