-- ===== src/Batch/Process/Tally.antt =====
-- The counters of `ProcessBatch` in batch.go through its steps.
use Prim.Native.String.{}
use llm_go_sdk.Base.{
  Bool, List, [], ap, arith, false, length, length-append, refl, subst, sym, true, true≢false, ℕ,
  ◌++◌, ◌+◌, ◌<◌, ◌∙◌, ◌∷◌, ◌≡◌,
}
use llm_go_sdk.Base.Table.{has_key, keys}
use llm_go_sdk.Errors.{}
use llm_go_sdk.Tool.{}
use llm_go_sdk.Tool.Registry.Registered.{IsUnique, is_listed-keys}
use llm_go_sdk.Tool.Calls.Indices.{length-insert_at}
use llm_go_sdk.Batch.{BatchRequest, Usage}
use llm_go_sdk.Batch.Builder.{ids, ids-append_one}
use llm_go_sdk.Batch.Process.{
  BatchReach, BatchState, Completion, add_usage, batch_start, batch_step, cancel, cancel_batch,
  end_call, end_context, no_usage, process_one, report, report_progress, skip_job, start_batch,
  take_job,
}
use llm_go_sdk.Batch.Process.Totals.{sum_of, sum_of-append_one}
use llm_go_sdk.Batch.Process.Places.{
  Places, Places-end, Places-skip, Places-take, ids-append, keys-append_one,
}
use llm_go_sdk.Batch.Process.Counts.{Ends, IsTallied, process_one-Ends}

module _ {C A : Type 0} (plus : A → A → A) (nothing : A) (continue : Bool) (workers : ℕ)
    (requests : List (BatchRequest C)) (f : Usage A → ℕ) (f-none : f no_usage ≡ 0)
    (f-add : (t u : Usage A) → f (add_usage t u) ≡ f t + f u) where
  Tallied : BatchState C A → Type 0
  Tallied s = IsTallied plus nothing f workers requests s

  start-Tallied : IsUnique (ids requests) → Tallied (start_batch plus nothing requests)
  unfolding Tallied
  start-Tallied u = record {
    places = u;
    counted = refl;
    reported = refl;
    summed = f-none;
    busy = omega arith;
    kept = omega arith;
    complete = λ _. omega arith;
  }

  take-Tallied :
      (s : BatchState C A) (r : BatchRequest C) (rest : List (BatchRequest C))
      → s.pending ≡ r ∷ rest
      → length s.in_flight + (s.canceling + s.reporting) < workers
      → Tallied s
      → Tallied (record s { pending = rest; in_flight = s.in_flight ++ (r ∷ []) })
  unfolding Tallied
  take-Tallied s r rest e l i =
      let a = length-append s.in_flight (r ∷ []) in
      let b = ap length e in
      let kept = i.kept in
      let p : Places (keys s.results) (ids s.in_flight) (r.id ∷ ids rest) =
        subst (λ x. Places (keys s.results) (ids s.in_flight) (ids x)) e i.places in
      record {
        places =
            subst (λ x. Places (keys s.results) x (ids rest)) (sym (ids-append_one s.in_flight r))
              (Places-take (keys s.results) (ids s.in_flight) r.id (ids rest) p);
        counted = i.counted;
        reported = i.reported;
        summed = i.summed;
        busy = omega arith;
        kept = omega arith;
        complete = λ h. let c = i.complete h in omega arith;
      }

  skip-Tallied :
      (s : BatchState C A) (r : BatchRequest C) (rest : List (BatchRequest C))
      → s.pending ≡ r ∷ rest
      → s.canceled ≡ true
      → Tallied s
      → Tallied (record s { pending = rest })
  unfolding Tallied
  skip-Tallied s r rest e c i =
      let b = ap length e in
      let kept = i.kept in
      let p : Places (keys s.results) (ids s.in_flight) (r.id ∷ ids rest) =
        subst (λ x. Places (keys s.results) (ids s.in_flight) (ids x)) e i.places in
      record {
        places = Places-skip (keys s.results) (ids s.in_flight) r.id (ids rest) p;
        counted = i.counted;
        reported = i.reported;
        summed = i.summed;
        busy = i.busy;
        kept = omega arith;
        complete = λ h. absurd (true≢false (sym c ∙ h));
      }

  cancel-Tallied : (s : BatchState C A) → Tallied s → Tallied (record s { canceled = true })
  unfolding Tallied
  cancel-Tallied s i = record {
    places = i.places;
    counted = i.counted;
    reported = i.reported;
    summed = i.summed;
    busy = i.busy;
    kept = i.kept;
    complete = λ h. absurd (true≢false h);
  }

  cancel_batch-Tallied :
      (s : BatchState C A) (c : ℕ)
      → s.canceling ≡ c + 1
      → Tallied s
      → Tallied (cancel_batch plus nothing c s)
  unfolding Tallied cancel_batch
  cancel_batch-Tallied s c e i =
      let reported = i.reported in
      let busy = i.busy in
      record {
        places = i.places;
        counted = i.counted;
        reported = omega arith;
        summed = i.summed;
        busy = omega arith;
        kept = i.kept;
        complete = λ h. absurd (true≢false h);
      }

  report_progress-Tallied :
      (s : BatchState C A) (k : ℕ)
      → s.reporting ≡ k + 1
      → Tallied s
      → Tallied (report_progress plus nothing k s)
  unfolding Tallied report_progress
  report_progress-Tallied s k e i =
      let reported = i.reported in
      let busy = i.busy in
      record {
        places = i.places;
        counted = i.counted;
        reported = omega arith;
        summed = i.summed;
        busy = omega arith;
        kept = i.kept;
        complete = i.complete;
      }

  -- The state when a call has left the running ones, and the one when its end is recorded.
  end-Tallied :
      (s t : BatchState C A) (before after : List (BatchRequest C)) (r : BatchRequest C)
      → s.in_flight ≡ before ++ (r ∷ after)
      → Ends plus nothing f r.id (record s { in_flight = before ++ after }) t
      → Places (keys s.results ++ (r.id ∷ [])) (ids before ++ ids after) (ids s.pending)
      → Tallied s
      → Tallied t
  unfolding Tallied
  end-Tallied s t before after r e d p i =
      let a = ap length e ∙ length-insert_at before r after in
      let x = ap length d.added ∙ length-append s.results ((r.id, d.result) ∷ []) in
      let y = ap length d.waiting in
      let z = ap length d.running in
      let m = d.one_more in
      let k = d.told in
      let behind = d.behind in
      let g = d.summed in
      let h = sum_of-append_one f s.results (r.id, d.result) in
      let h' = ap (sum_of f) d.added in
      let counted = i.counted in
      let reported = i.reported in
      let summed = i.summed in
      let busy = i.busy in
      let kept = i.kept in
      let done = sym (ap keys d.added ∙ keys-append_one s.results (r.id, d.result)) in
      let left = sym (ap ids d.running ∙ ids-append before after) in
      record {
        places =
            subst (λ v. Places v (ids t.in_flight) (ids t.pending)) done
              (subst (λ v. Places (keys s.results ++ (r.id ∷ [])) v (ids t.pending)) left
                (subst (λ v. Places (keys s.results ++ (r.id ∷ [])) (ids before ++ ids after) v)
                  (ap ids (sym d.waiting)) p));
        counted = omega arith;
        reported = omega arith;
        summed = omega arith;
        busy = omega arith;
        kept = omega arith;
        complete = λ q. let c = i.complete (sym d.going ∙ q) in omega arith;
      }

  end_call-Tallied :
      (s : BatchState C A) (before after : List (BatchRequest C)) (r : BatchRequest C)
      (duration : ℕ) (c : Completion A)
      → s.in_flight ≡ before ++ (r ∷ after)
      → Tallied s
      → Tallied (
          process_one plus nothing continue r.id duration c
            (record s { in_flight = before ++ after }))
  unfolding Tallied
  end_call-Tallied s before after r duration c e i =
      let s' : BatchState C A = record s { in_flight = before ++ after } in
      let q = ap ids e ∙ ids-append before (r ∷ after) in
      let p =
        Places-end (keys s.results) (ids before) (ids after) r.id (ids s.pending)
          (subst (λ v. Places (keys s.results) v (ids s.pending)) q i.places) in
      let n : has_key r.id s.results ≡ false = sym (is_listed-keys r.id s.results) ∙ p.0 in
      end-Tallied s (process_one plus nothing continue r.id duration c s') before after r e
        (process_one-Ends plus nothing f f-add continue r.id duration c s' n) p.1 i

  pub BatchReach-Tallied :
      {s : BatchState C A}
      → IsUnique (ids requests)
      → BatchReach plus nothing continue workers requests s
      → IsTallied plus nothing f workers requests s
  unfolding Tallied
  BatchReach-Tallied u batch_start = start-Tallied u
  BatchReach-Tallied u (batch_step {s = s} b (take_job r rest e c l)) =
      take-Tallied s r rest e l (BatchReach-Tallied u b)
  BatchReach-Tallied u (batch_step {s = s} b (skip_job r rest e c)) =
      skip-Tallied s r rest e c (BatchReach-Tallied u b)
  BatchReach-Tallied u (batch_step {s = s} b (end_call before after r duration c e)) =
      end_call-Tallied s before after r duration c e (BatchReach-Tallied u b)
  BatchReach-Tallied u (batch_step {s = s} b (cancel c e)) =
      cancel_batch-Tallied s c e (BatchReach-Tallied u b)
  BatchReach-Tallied u (batch_step {s = s} b (report k e)) =
      report_progress-Tallied s k e (BatchReach-Tallied u b)
  BatchReach-Tallied u (batch_step {s = s} b end_context) =
      cancel-Tallied s (BatchReach-Tallied u b)
