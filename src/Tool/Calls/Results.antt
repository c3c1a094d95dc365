-- ===== src/Tool/Calls/Results.antt =====
-- The results of `runToolCalls` of runtools.go, between the goroutines and the messages.
use mathlib.Core.Option
use llm_go_sdk.Base.{
  ==_iff, All, Bool, Bool-cases, List, [], ap, arith, false, get_elem?, if◌then◌else◌, inl, inr,
  length, length-append, ltb, ltb→lt, map, not, refl, some, subst, sym, true, true≢false, ℕ, ◌&&◌,
  ◌++◌, ◌+◌, ◌<◌, ◌==◌, ◌||◌, ◌∙◌, ◌∷◌, ◌≡◌, ◌≤◌, ◌⊎◌,
}
use llm_go_sdk.Errors.{Error}
use llm_go_sdk.Message.{Message, ToolCall}
use llm_go_sdk.Tool.{}
use llm_go_sdk.Tool.Calls.{CallsState, empty_message, is_open, set_at, start_calls}
use llm_go_sdk.Tool.Calls.Indices.{
  get_elem-map, get_elem-none, get_elem-set_at, get_elem_ext, get_elem_some, indices,
  indices-append_one, length-indices, length-insert_at, length-map, length-replicate, length-set_at,
  mem, mem-append_one, mem-insert,
}

abbrev pub is_live : CallsState → Bool
is_live s = not s.canceled && is_open s

mem-length : (j : ℕ) (xs : List ℕ) → mem j xs ≡ true → 0 < length xs
mem-length j [] h = absurd (true≢false (sym h))
mem-length j (x ∷ xs) h = omega arith

pub All-append :
    {A : Type 0} (P : A → Type 0) (xs : List A) (y : A) → All P xs → P y → All P (xs ++ (y ∷ []))
All-append P [] y h p = (p, tt)
All-append P (x ∷ xs) y h p = (h.0, All-append P xs y h.1 p)

module _ (answer : ToolCall → Message) (calls : List ToolCall) where
  abbrev pub expected : List Message
  expected = map answer calls

  -- A call that was started is running, or its result waits, or is stored.
  abbrev pub IsPlaced : CallsState → ℕ → Type 0
  IsPlaced s j =
      (mem j s.running ≡ true)
      ⊎ (mem j (indices s.results) ≡ true)
      ⊎ (get_elem? s.messages j ≡ get_elem? expected j)

  pub record IsSound (s : CallsState) : Type 0 where
    pub sized : length s.messages ≡ length calls
    pub right : All (λ r. get_elem? expected r.0 ≡ some r.1) s.results
    pub counted : is_live s ≡ true → length s.running + length s.results + s.received ≡ s.next
    pub placed : is_live s ≡ true → (j : ℕ) → j < s.next → IsPlaced s j
    pub full :
        s.received ≡ length calls
        → (j : ℕ) → j < length calls
        → get_elem? s.messages j ≡ get_elem? expected j
    pub returned : (ms : List Message) → s.outcome ≡ some (inr ms) → ms ≡ expected

  pub IsSound-start : IsSound (start_calls calls)
  IsSound-start = record {
    sized = length-replicate (length calls) empty_message;
    right = tt;
    counted = λ _. refl;
    placed = λ _ j h. absurd (omega arith);
    full = λ e j h. absurd (omega arith);
    returned = λ ms h. absurd (Option.none-ne-some (inr ms) h);
  }

  pub launch-IsSound :
      (s : CallsState)
      → IsSound s
      → IsSound (record s { next = s.next + 1; running = s.next ∷ s.running })
  launch-IsSound s i = record {
    sized = i.sized;
    right = i.right;
    counted = λ l. let c = i.counted l in omega arith;
    placed = λ l j h. elim (Bool-cases (j == s.next)) [
      | inl e ↦ inl (ground arith)
      | inr n ↦ elim (i.placed l j (ground arith)) [ inl m ↦ inl (ground arith) | inr r ↦ inr r ]
    ];
    full = i.full;
    returned = i.returned;
  }

  pub send-IsSound :
      (s : CallsState) (before after : List ℕ) (k : ℕ) (tc : ToolCall)
      → s.running ≡ before ++ (k ∷ after)
      → get_elem? calls k ≡ some tc
      → IsSound s
      → IsSound (record s {
        running = before ++ after;
        closing = s.closing + 1;
        results = s.results ++ ((k, answer tc) ∷ []);
      })
  send-IsSound s before after k tc e g i =
      let sent = s.results ++ ((k, answer tc) ∷ []) in
      let waiting : (j : ℕ) → mem j (indices sent) ≡ mem j (indices s.results) || (j == k) = λ j.
        ap (mem j) (indices-append_one s.results (k, answer tc))
        ∙ mem-append_one j k (indices s.results) in
      record {
        sized = i.sized;
        right = All-append _ s.results (k, answer tc) i.right (get_elem-map answer calls k tc g);
        counted = λ l.
            let c = i.counted l in
            let a = ap length e ∙ length-insert_at before k after in
            let b = length-append s.results ((k, answer tc) ∷ []) in omega arith;
        placed = λ l j h. elim (i.placed l j h) [
          | inl m ↦
              (let m' : (j == k) || mem j (before ++ after) ≡ true =
                  sym (mem-insert j k before after) ∙ ap (mem j) (sym e) ∙ m in
                elim (Bool-cases (j == k)) [
                  | inl y ↦ inr (inl (waiting j ∙ rw y (ground arith)))
                  | inr n ↦ inl (ground arith)
                ])
          | inr (inl m) ↦ inr (inl (waiting j ∙ rw m refl))
          | inr (inr f) ↦ inr (inr f)
        ];
        full = i.full;
        returned = i.returned;
      }

  -- A state that is not live keeps only what does not depend on the calls.
  pub dead-IsSound :
      (s : CallsState) (running : List ℕ) (closing : ℕ)
      → (s.canceled || not (is_open s)) ≡ true
      → IsSound s
      → IsSound (record s { running = running; closing = closing })
  dead-IsSound s running closing d i =
      let dead : is_live s ≡ false = ground arith in
      record {
        sized = i.sized;
        right = i.right;
        counted = λ l. absurd (true≢false (sym l ∙ dead));
        placed = λ l. absurd (true≢false (sym l ∙ dead));
        full = i.full;
        returned = i.returned;
      }

  pub release-IsSound : (s : CallsState) (c : ℕ) → IsSound s → IsSound (record s { closing = c })
  release-IsSound s c i = record {
    sized = i.sized;
    right = i.right;
    counted = i.counted;
    placed = i.placed;
    full = i.full;
    returned = i.returned;
  }

  pub cancel-IsSound : (s : CallsState) → IsSound s → IsSound (record s { canceled = true })
  cancel-IsSound s i = record {
    sized = i.sized;
    right = i.right;
    counted = λ l. absurd (true≢false (sym l));
    placed = λ l. absurd (true≢false (sym l));
    full = i.full;
    returned = i.returned;
  }

  pub closed-IsSound :
      (s : CallsState) (o : Error ⊎ List Message)
      → ((ms : List Message) → o ≡ inr ms → ms ≡ expected)
      → IsSound s
      → IsSound (record s { outcome = some o })
  closed-IsSound s o r i =
      let dead : not s.canceled && false ≡ false = ground arith in
      record {
        sized = i.sized;
        right = i.right;
        counted = λ l. absurd (true≢false (sym l ∙ dead));
        placed = λ l. absurd (true≢false (sym l ∙ dead));
        full = i.full;
        returned = λ ms h. r ms (Option.some_inj.0 h);
      }

  -- The messages when every result was received.
  pub full-expected :
      (s : CallsState) → IsSound s → s.received ≡ length calls → s.messages ≡ expected
  full-expected s i r = get_elem_ext s.messages expected (λ j.
      elim (Bool-cases (ltb j (length calls))) [
        | inl l ↦ i.full r j (ltb→lt j (length calls) l)
        | inr n ↦
            (let past : length calls ≤ j = ground arith in
              let a = i.sized in
              let b = length-map answer calls in
              get_elem-none s.messages j (omega arith)
              ∙ sym (get_elem-none expected j (omega arith)))
      ])

  module _ (s : CallsState) (k : ℕ) (m : Message) (rest : List (ℕ × Message)) where
    abbrev pub stored : CallsState
    stored = record s {
      results = rest;
      received = s.received + 1;
      messages = set_at k m s.messages;
    }

    module _ (e : s.results ≡ (k, m) ∷ rest) (i : IsSound s) where
      good : (get_elem? expected k ≡ some m) × All (λ r. get_elem? expected r.0 ≡ some r.1) rest
      good = subst (All (λ r. get_elem? expected r.0 ≡ some r.1)) e i.right

      -- The message that was received stands at its index, and the others are as before.
      stored-at :
          (j : ℕ)
          → get_elem? (set_at k m s.messages) j
            ≡ (if j == k then get_elem? expected j else get_elem? s.messages j)
      stored-at j =
          let a = i.sized in
          let b = length-map answer calls in
          let c = get_elem_some expected k m good.0 in
          let inside : ltb k (length s.messages) ≡ true = ground arith in
          get_elem-set_at k j m s.messages ∙ elim (Bool-cases (j == k)) [
            | inl y ↦ let q : j ≡ k = (==_iff j k).0 y in rw (y, inside) (rw q (sym good.0))
            | inr n ↦ rw n refl
          ]

      stored-IsPlaced : (j : ℕ) → IsPlaced s j → IsPlaced stored j
      stored-IsPlaced j (inl h) = inl h
      stored-IsPlaced j (inr (inr h)) =
          inr
            (inr (stored-at j ∙ elim (Bool-cases (j == k)) [ inl y ↦ rw y refl | inr n ↦ rw n h ]))
      stored-IsPlaced j (inr (inl h)) =
          let h' : (j == k) || mem j (indices rest) ≡ true = rw e at h in
          elim (Bool-cases (j == k)) [
            | inl y ↦ inr (inr (stored-at j ∙ rw y refl))
            | inr n ↦ inr (inl (ground arith))
          ]

      pub receive-IsSound : is_live s ≡ true → s.next ≡ length calls → IsSound stored
      receive-IsSound l n =
          let c = i.counted l in
          let d = ap length e in
          record {
            sized = length-set_at k m s.messages ∙ i.sized;
            right = good.1;
            counted = λ _. omega arith;
            placed = λ _ j h. stored-IsPlaced j (i.placed l j h);
            full = λ r j h. elim (stored-IsPlaced j (i.placed l j (omega arith))) [
              | inl h' ↦ (let z = mem-length j s.running h' in absurd (omega arith))
              | inr (inl h') ↦
                  (let z = mem-length j (indices rest) h' in
                    let y = length-indices rest in absurd (omega arith))
              | inr (inr h') ↦ h'
            ];
            returned = i.returned;
          }
