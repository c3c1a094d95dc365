-- ===== src/Tool/Registry/Dispatch.antt =====
-- What the registry of tools.go answers to a call.
use Prim.Native.String.{String, ◌++◌ as str_append}
use text.Mathlib.Text.{◌==◌ as str_eq}
use text.Mathlib.TextEquality.{eq_iff}
use llm_go_sdk.Base.{
  Bool, Bool-cases, List, Option, Option-cases, Sum-cases, [], ap, false, if◌then◌else◌, inl, inr,
  map, none, refl, some, sym, true, true≢false, ◌||◌, ◌↔◌, ◌∙◌, ◌∷◌, ◌≡◌, ◌⊎◌,
}
use llm_go_sdk.Base.Table.{
  has_key, has_key-lookup, has_key-none, keys, lookup-insert, lookup-insert_other,
}
use llm_go_sdk.Message.{FunctionCall, Message, ToolCall, is_tool}
use llm_go_sdk.Tool.{
  FunctionDefinition, HandlerOutcome, Host, Response, Tool, ToolError, call_without_function,
  failed_to_marshal, handler_failed, handler_panicked, result_nil, result_text, result_value,
  returned, tool_call_name, tool_error_text, tool_not_found, tool_result, tool_result_error,
  tool_result_string,
}
use llm_go_sdk.Tool.Registry.{
  Handled, ToolRegistry, answered, handle, handle_all, handle_each, handled, handler, panicked,
  register, reply, unhandled,
}
use llm_go_sdk.Tool.Registry.Registered.{
  IsRegistered, advertised, is_listed, is_listed-keys, stored,
}

register-stored :
    {H : Type 0} (tool : Tool) (f : FunctionDefinition) (g : H) (r : ToolRegistry H)
    → tool.function ≡ some f
    → register tool (some g) r ≡ stored f.name tool g r
unfolding register
register-stored tool f g r h = elim (Bool-cases (has_key f.name r.handlers)) [
  | inl y ↦ rw (h, y) refl
  | inr m ↦ rw (h, m) refl
]

-- After `Register` the name has the new handler, and any other name the handler that it had.
pub register-handler :
    {H : Type 0} (tool : Tool) (f : FunctionDefinition) (g : H) (r : ToolRegistry H) (name : String)
    → tool.function ≡ some f
    → handler name (register tool (some g) r)
      ≡ (if str_eq name f.name then some g else handler name r)
register-handler tool f g r name h =
    rw (register-stored tool f g r h) (elim (Bool-cases (str_eq name f.name)) [
      | inl y ↦
          let e : name ≡ f.name = (eq_iff name f.name).0 y in
          rw y (rw e (lookup-insert f.name g r.handlers))
      | inr n ↦ rw n (lookup-insert_other name f.name g r.handlers n)
    ])

abbrev names : Option String → String → Bool
names none k = false
names (some j) k = str_eq k j

abbrev is_wanted : String → List (Option String) → Bool
is_wanted k [] = false
is_wanted k (o ∷ os) = names o k || is_wanted k os

is_wanted-some : (k : String) (js : List String) → is_wanted k (map some js) ≡ is_listed k js
is_wanted-some k [] = refl
is_wanted-some k (j ∷ js) = ap (λ b. str_eq k j || b) (is_wanted-some k js)

-- Some advertised tool has the name.
abbrev pub is_advertised : {H : Type 0} → String → ToolRegistry H → Bool
is_advertised name r = is_wanted name (advertised r.tools)

is_advertised-has_key :
    {H : Type 0} (k : String) (r : ToolRegistry H)
    → IsRegistered r
    → is_advertised k r ≡ has_key k r.handlers
is_advertised-has_key k r i =
    ap (is_wanted k) i.0 ∙ is_wanted-some k (keys r.handlers) ∙ is_listed-keys k r.handlers

-- What the answer of a handler becomes.
answered_cases :
    {H V : Type 0} (host : Host H V) (id name : String) (o : HandlerOutcome V)
    → ((s : String) × (answered host id name o ≡ handled (tool_result_string id name s)))
      ⊎ ((e : String) × (answered host id name o ≡ unhandled (failed_to_marshal e)))
      ⊎ ((p : String) × (answered host id name o ≡ panicked p))
unfolding answered tool_result tool_result_error
answered_cases host id name (handler_failed e) = inl (str_append "Error: " e, refl)
answered_cases host id name (handler_panicked p) = inr (inr (p, refl))
answered_cases host id name (returned result_nil) = inl ("", refl)
answered_cases host id name (returned (result_text s)) = inl (s, refl)
answered_cases host id name (returned (result_value v)) = elim (Sum-cases (host.marshal v)) [
  | inl (e, n) ↦ inr (inl (e, rw (answered, n) refl))
  | inr (t, n) ↦ inl (t, rw (answered, n) refl)
]

abbrev is_unknown : Handled → Bool
is_unknown (unhandled (tool_not_found name)) = true
is_unknown _ = false

answered-known :
    {H V : Type 0} (host : Host H V) (id name : String) (o : HandlerOutcome V)
    → is_unknown (answered host id name o) ≡ false
answered-known host id name o = elim (answered_cases host id name o) [
  | inl (s, n) ↦ rw n refl
  | inr (inl (e, n)) ↦ rw n refl
  | inr (inr (p, n)) ↦ rw n refl
]

-- A call is turned down as unknown exactly when no advertised tool has its name.
pub handle-advertised :
    {H V : Type 0} (host : Host H V) (r : ToolRegistry H) (tc : ToolCall) (f : FunctionCall)
    → IsRegistered r
    → tc.function ≡ some f
    → (handle host r tc ≡ unhandled (tool_not_found f.name)) ↔ (is_advertised f.name r ≡ false)
unfolding handle
handle-advertised host r tc f i h = elim (Option-cases (handler f.name r)) [
  | inl n ↦ (
    λ _. is_advertised-has_key f.name r i ∙ has_key-none f.name r.handlers n,
    λ _. rw (handle, h, n) refl,
  )
  | inr (g, n) ↦
      let known = answered-known host tc.id f.name (host.run g f.arguments) in
      let same : handle host r tc ≡ answered host tc.id f.name (host.run g f.arguments) =
        rw (handle, h, n) refl in
      (
        λ e. absurd (true≢false (ap is_unknown (sym e ∙ same) ∙ known)),
        λ u. absurd (
            true≢false (
              sym (has_key-lookup f.name r.handlers g n)
              ∙ sym (is_advertised-has_key f.name r i)
              ∙ u)),
      )
]

-- The message is a tool result that names this call.
abbrev pub Answers : ToolCall → Message → Type 0
Answers tc m =
    (is_tool m ≡ true)
    × (m.tool_call_id ≡ tc.id)
    × (m.name ≡ tool_call_name tc)
    × (m.tool_calls ≡ [])

tool_result_string-Answers :
    (tc : ToolCall) (s : String) → Answers tc (tool_result_string tc.id (tool_call_name tc) s)
unfolding tool_result_string
tool_result_string-Answers tc s = (refl, refl, refl, refl)

tool_result_error-Answers :
    (tc : ToolCall) (s : String) → Answers tc (tool_result_error tc.id (tool_call_name tc) s)
unfolding tool_result_error
tool_result_error-Answers tc s = tool_result_string-Answers tc (str_append "Error: " s)

handle_cases :
    {H V : Type 0} (host : Host H V) (r : ToolRegistry H) (tc : ToolCall)
    → ((s : String) × (handle host r tc ≡ handled (tool_result_string tc.id (tool_call_name tc) s)))
      ⊎ ((e : ToolError) × (handle host r tc ≡ unhandled e))
      ⊎ ((p : String) × (handle host r tc ≡ panicked p))
unfolding handle
handle_cases host r tc = elim (Option-cases tc.function) [
  | inl n ↦ inr (inl (call_without_function, rw (handle, n) refl))
  | inr (f, n) ↦ elim (Option-cases (handler f.name r)) [
    | inl k ↦ inr (inl (tool_not_found f.name, rw (handle, n, k) refl))
    | inr (g, k) ↦
        let same : handle host r tc ≡ answered host tc.id f.name (host.run g f.arguments) =
          rw (handle, n, k) refl in
        elim (answered_cases host tc.id f.name (host.run g f.arguments)) [
          | inl (s, q) ↦ inl (s, same ∙ q ∙ (rw n refl))
          | inr (inl (e, q)) ↦ inr (inl (failed_to_marshal e, same ∙ q))
          | inr (inr (p, q)) ↦ inr (inr (p, same ∙ q))
        ]
  ]
]

-- The tool loop answers every call: with what the handler says, or with the text of the error or of
-- the panic, in a message that names the call.
pub reply-Answers :
    {H V : Type 0} (host : Host H V) (r : ToolRegistry H) (tc : ToolCall)
    → Answers tc (reply host r tc)
unfolding reply
reply-Answers host r tc = elim (handle_cases host r tc) [
  | inl (s, n) ↦ rw (reply, n) (tool_result_string-Answers tc s)
  | inr (inl (e, n)) ↦ rw (reply, n) (tool_result_error-Answers tc (tool_error_text e))
  | inr (inr (p, n)) ↦
      rw (reply, n)
        (tool_result_error-Answers tc (
          str_append "tool "
            (str_append (host.quote (tool_call_name tc)) (str_append " panicked: " p))))
]

abbrev is_handled : Handled → Bool
is_handled (handled m) = true
is_handled _ = false

-- The first call that is not handled, as what `Handle` does with it.
abbrev pub first_unhandled :
    {H V : Type 0} → Host H V → ToolRegistry H → List ToolCall → Option Handled
first_unhandled host r [] = none
first_unhandled host r (tc ∷ tcs) =
    if is_handled (handle host r tc) then first_unhandled host r tcs else some (handle host r tc)

reply-handled :
    {H V : Type 0} (host : Host H V) (r : ToolRegistry H) (tc : ToolCall) (m : Message)
    → handle host r tc ≡ handled m
    → reply host r tc ≡ m
unfolding reply
reply-handled host r tc m h = rw (reply, h) refl

abbrev all_or_first : {A B : Type 0} → List A → Option B → B ⊎ List A
all_or_first xs none = inr xs
all_or_first xs (some e) = inl e

handle_each_step :
    {H V : Type 0} (host : Host H V) (r : ToolRegistry H) (tc : ToolCall) (tcs : List ToolCall)
    → handle_each host r (tc ∷ tcs) ≡ elim (handle host r tc) [
      | handled m ↦ elim (handle_each host r tcs) [ inl e ↦ inl e | inr ms ↦ inr (m ∷ ms) ]
      | other ↦ inl other
    ]
unfolding handle_each
handle_each_step host r tc tcs = refl

handle_each-replies :
    {H V : Type 0} (host : Host H V) (r : ToolRegistry H) (tcs : List ToolCall)
    → handle_each host r tcs ≡ all_or_first (map (reply host r) tcs) (first_unhandled host r tcs)
unfolding handle_each
handle_each-replies host r [] = refl
handle_each-replies host r (tc ∷ tcs) =
    handle_each_step host r tc tcs ∙ elim (handle_cases host r tc) [
      | inl (s, n) ↦
          rw (n, handle_each-replies host r tcs, reply-handled host r tc _ n)
            (elim (Option-cases (first_unhandled host r tcs)) [
              | inl k ↦ rw k refl
              | inr (e, k) ↦ rw k refl
            ])
      | inr (inl (e, n)) ↦ rw n refl
      | inr (inr (p, n)) ↦ rw n refl
    ]

-- `HandleAll` returns the replies that the tool loop would append, in the order of the calls, when
-- every call is handled, and otherwise only what stops the first call that is not.
pub handle_all-replies :
    {H V U : Type 0} (host : Host H V) (r : ToolRegistry H) (resp : Response U)
    → handle_all host r (some resp)
      ≡ all_or_first (map (reply host r) resp.tool_calls) (first_unhandled host r resp.tool_calls)
unfolding handle_all
handle_all-replies host r resp = handle_each-replies host r resp.tool_calls
