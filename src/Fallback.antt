-- ===== src/Fallback.antt =====
-- pkg/middleware/resilience/fallback.go: the chain that tries clients in order, with a health
-- cooldown per client. A client is a value of any type. Methods return the new record; each that
-- holds `fc.mu` is one atomic step, and a call of a client runs between two such steps, so the loop
-- takes what other goroutines did to the chain meanwhile as an argument. Times are nanoseconds; a
-- zero `time.Time` is `none`. The ids are int64 and are taken not to run out.
pub mod Loop
pub mod Health
pub mod Ids
pub mod Numbering
pub mod Snapshot
pub mod Answers
mod Weighted
mod Examples
use mathlib.Core.Option
use Prim.Native.String.{}
use text.Mathlib.Text.{◌==◌ as str_eq}
use llm_go_sdk.Base.{
  Bool, List, Option, [], drop, false, get_elem?, if◌then◌else◌, leb, length, ltb, map, none, some,
  suc, take, true, zero, ℕ, ◌++◌, ◌+◌, ◌==◌, ◌||◌, ◌∷◌,
}
use llm_go_sdk.Base.Int.{negsuc, pos, ℤ}
use llm_go_sdk.Errors.{Error, as_api_error, circuit_open, is, server_error}
use llm_go_sdk.Retry.{is_provider_unhealthy}

-- `DefaultFallbackSelector`.
unfoldable pub default_should_fallback : Error → Bool
unfolding is_provider_unhealthy as_api_error is
default_should_fallback e = if is_provider_unhealthy e then true else elim (as_api_error e) [
  | none ↦ is e circuit_open
  | some a ↦
      (if a.status_code == 529
        then true
        else if str_eq a.type_name "rate_limit_error"
            || (str_eq a.type_name "overloaded_error" || str_eq a.type_name "server_error")
        then true
        else is e circuit_open)
]

abbrev pub always_fallback : Error → Bool
always_fallback e = true

abbrev pub never_fallback : Error → Bool
never_fallback e = false

pub record FallbackEntry (Client : Type 0) : Type 0 where
  pub id : ℕ
  pub client : Client
  pub unhealthy_until : Option ℕ

pub record FallbackChain (Client : Type 0) : Type 0 where
  pub entries : List (FallbackEntry Client)
  pub next_id : ℕ
  pub selector : Error → Bool
  pub recovery_after : ℕ

pub record FallbackCandidate (Client : Type 0) : Type 0 where
  pub position : ℕ
  pub id : ℕ
  pub client : Client

abbrev pub default_fallback_recovery_after : ℕ
default_fallback_recovery_after = 30000000000

unfoldable pub is_healthy_at : Option ℕ → ℕ → Bool
is_healthy_at none now = true
is_healthy_at (some t) now = leb t now

abbrev pub remove_at : {A : Type 0} → ℕ → List A → List A
remove_at i xs = take i xs ++ drop (i + 1) xs

module _ {Client : Type 0} where
  number_clients : ℕ → List Client → List (FallbackEntry Client)
  number_clients n [] = []
  number_clients n (c ∷ cs) =
      record { id = n; client = c; unhealthy_until = none } ∷ number_clients (n + 1) cs

  -- The chain before its options; they set the selector and a positive recovery time.
  unfoldable pub new_fallback_chain : List Client → FallbackChain Client
  unfolding number_clients default_should_fallback
  new_fallback_chain cs = record {
    entries = number_clients 0 cs;
    next_id = length cs;
    selector = default_should_fallback;
    recovery_after = default_fallback_recovery_after;
  }

  unfoldable pub with_fallback_selector :
      Option (Error → Bool) → FallbackChain Client → FallbackChain Client
  with_fallback_selector none fc = fc
  with_fallback_selector (some s) fc = record fc { selector = s }

  unfoldable pub with_recovery_after : ℤ → FallbackChain Client → FallbackChain Client
  with_recovery_after (pos d) fc = if ltb 0 d then record fc { recovery_after = d } else fc
  with_recovery_after (negsuc d) fc = fc

  -- The candidates from position `i` on: all of them, and the healthy ones.
  unfoldable pub candidates_from : ℕ → List (FallbackEntry Client) → List (FallbackCandidate Client)
  candidates_from i [] = []
  candidates_from i (e ∷ es) =
      record { position = i; id = e.id; client = e.client } ∷ candidates_from (i + 1) es

  unfoldable pub eligible_from :
      ℕ → ℕ → List (FallbackEntry Client) → List (FallbackCandidate Client)
  unfolding is_healthy_at
  eligible_from now i [] = []
  eligible_from now i (e ∷ es) =
      let rest = eligible_from now (i + 1) es in
      if is_healthy_at e.unhealthy_until now
      then record { position = i; id = e.id; client = e.client } ∷ rest
      else rest

  unfoldable pub snapshot : ℕ → FallbackChain Client → List (FallbackCandidate Client)
  unfolding candidates_from eligible_from
  snapshot now fc = elim (eligible_from now 0 fc.entries) [
    | [] ↦ candidates_from 0 fc.entries
    | c ∷ cs ↦ c ∷ cs
  ]

  unfoldable pub add_client : Client → FallbackChain Client → FallbackChain Client
  add_client c fc = record fc {
    entries = fc.entries ++ (record { id = fc.next_id; client = c; unhealthy_until = none } ∷ []);
    next_id = fc.next_id + 1;
  }

  unfoldable pub remove_client : ℤ → FallbackChain Client → FallbackChain Client × Bool
  remove_client (negsuc i) fc = (fc, false)
  remove_client (pos i) fc =
      if leb (length fc.entries) i
      then (fc, false)
      else (record fc { entries = remove_at i fc.entries }, true)

  -- `indexOfID`, with -1 as `none`, and a write at an index.
  unfoldable pub index_of_id : ℕ → List (FallbackEntry Client) → Option ℕ
  index_of_id id [] = none
  index_of_id id (e ∷ es) = if e.id == id then some 0 else Option.map suc (index_of_id id es)

  set_health : ℕ → Option ℕ → List (FallbackEntry Client) → List (FallbackEntry Client)
  set_health i h [] = []
  set_health zero h (e ∷ es) = record e { unhealthy_until = h } ∷ es
  set_health (suc i) h (e ∷ es) = e ∷ set_health i h es

  unfoldable pub set_client_healthy : ℕ → ℤ → Bool → FallbackChain Client → FallbackChain Client
  unfolding set_health
  set_client_healthy now (negsuc i) healthy fc = fc
  set_client_healthy now (pos i) healthy fc =
      if ltb i (length fc.entries)
      then record fc {
        entries =
            set_health i (if healthy then none else some (now + fc.recovery_after)) fc.entries;
      }
      else fc

  unfoldable pub is_client_healthy : ℕ → ℤ → FallbackChain Client → Bool
  unfolding is_healthy_at
  is_client_healthy now (negsuc i) fc = true
  is_client_healthy now (pos i) fc = elim (get_elem? fc.entries i) [
    | none ↦ true
    | some e ↦ is_healthy_at e.unhealthy_until now
  ]

  abbrev clear_health : FallbackEntry Client → FallbackEntry Client
  clear_health e = record e { unhealthy_until = none }

  unfoldable pub reset_health : FallbackChain Client → FallbackChain Client
  reset_health fc = record fc { entries = map clear_health fc.entries }

  mark_id : ℕ → Option ℕ → FallbackChain Client → FallbackChain Client
  unfolding index_of_id set_health
  mark_id id h fc = elim (index_of_id id fc.entries) [
    | none ↦ fc
    | some i ↦ record fc { entries = set_health i h fc.entries }
  ]

  unfoldable pub mark_healthy_id : ℕ → FallbackChain Client → FallbackChain Client
  unfolding mark_id
  mark_healthy_id id fc = mark_id id none fc

  unfoldable pub mark_unhealthy_id : ℕ → ℕ → FallbackChain Client → FallbackChain Client
  unfolding mark_id
  mark_unhealthy_id now id fc = mark_id id (some (now + fc.recovery_after)) fc
