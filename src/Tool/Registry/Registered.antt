-- ===== src/Tool/Registry/Registered.antt =====
-- The tools and the handlers of the registry of tools.go.
use Prim.Native.String.{String}
use text.Mathlib.Text.{◌==◌ as str_eq}
use text.Mathlib.TextEquality.{eq_iff}
use mathlib.Core.Option
use llm_go_sdk.Base.{
  Bool, Bool-cases, List, Option, Option-cases, [], ap, arith, false, if◌then◌else◌, inl, inr, map,
  none, refl, some, sym, ◌++◌, ◌||◌, ◌∙◌, ◌∷◌, ◌≡◌, ◌⊎◌,
}
use llm_go_sdk.Base.Table.{has_key, insert, keys, keys-insert, str_eq_sym}
use llm_go_sdk.Message.{}
use llm_go_sdk.Tool.{FunctionDefinition, Tool}
use llm_go_sdk.Tool.Registry.{ToolRegistry, register, replace_tool}

abbrev name_of : Tool → Option String
name_of t = Option.map (λ f. f.name) t.function

abbrev pub advertised : List Tool → List (Option String)
advertised ts = map name_of ts

abbrev pub is_listed : String → List String → Bool
is_listed k [] = false
is_listed k (j ∷ js) = str_eq k j || is_listed k js

abbrev pub IsUnique : List String → Type 0
IsUnique [] = Unit {0}
IsUnique (k ∷ ks) = (is_listed k ks ≡ false) × IsUnique ks

-- Every advertised tool has a function, its name is a key of the handlers, and no name comes twice.
abbrev pub IsRegistered : {H : Type 0} → ToolRegistry H → Type 0
IsRegistered r = (advertised r.tools ≡ map some (keys r.handlers)) × IsUnique (keys r.handlers)

pub is_listed-keys :
    {H : Type 0} (k : String) (t : List (String × H)) → is_listed k (keys t) ≡ has_key k t
is_listed-keys k [] = refl
is_listed-keys k (e ∷ t) = rw (is_listed-keys k t) refl

is_listed-append :
    (k j : String) (js : List String) → is_listed k (js ++ (j ∷ [])) ≡ is_listed k js || str_eq k j
is_listed-append k j [] = ground arith
is_listed-append k j (i ∷ is) = rw (is_listed-append k j is) (ground arith)

pub IsUnique-append :
    (ks : List String) (k : String)
    → IsUnique ks
    → is_listed k ks ≡ false
    → IsUnique (ks ++ (k ∷ []))
IsUnique-append [] k u n = (refl, tt)
IsUnique-append (j ∷ js) k u n =
    let d : str_eq j k ≡ false = str_eq_sym j k ∙ ground arith in
    (is_listed-append j k js ∙ rw (u.0, d) refl, IsUnique-append js k u.1 (ground arith))

map-append_one :
    (ks : List String) (k : String)
    → map {B = Option String} some (ks ++ (k ∷ [])) ≡ map some ks ++ (some k ∷ [])
map-append_one [] k = refl
map-append_one (j ∷ js) k = ap (◌∷◌ (some j)) (map-append_one js k)

advertised-append :
    (ts : List Tool) (t : Tool) → advertised (ts ++ (t ∷ [])) ≡ advertised ts ++ (name_of t ∷ [])
advertised-append [] t = refl
advertised-append (u ∷ us) t = ap (◌∷◌ (name_of u)) (advertised-append us t)

-- A tool replaces one with its own name.
replace_tool-advertised :
    (tool : Tool) (f : FunctionDefinition) (ts : List Tool)
    → tool.function ≡ some f
    → advertised (replace_tool f.name tool ts) ≡ advertised ts
replace_tool-advertised tool f [] h = refl
replace_tool-advertised tool f (t ∷ ts) h = elim (Option-cases t.function) [
  | inl n ↦ rw n (rw n (ap (◌∷◌ none) (replace_tool-advertised tool f ts h)))
  | inr (g, n) ↦ elim (Bool-cases (str_eq g.name f.name)) [
    | inl y ↦
        let e : g.name ≡ f.name = (eq_iff g.name f.name).0 y in
        rw (n, y, h) (ap (λ x. some x ∷ advertised ts) (sym e))
    | inr m ↦ rw (n, m) (rw n (ap (◌∷◌ (some g.name)) (replace_tool-advertised tool f ts h)))
  ]
]

-- The registry after a tool and its handler are stored.
abbrev pub stored : {H : Type 0} → String → Tool → H → ToolRegistry H → ToolRegistry H
stored name tool g r = record {
  handlers = insert name g r.handlers;
  tools =
      if has_key name r.handlers then replace_tool name tool r.tools else r.tools ++ (tool ∷ []);
}

pub register_cases :
    {H : Type 0} (tool : Tool) (h : Option H) (r : ToolRegistry H)
    → (register tool h r ≡ r)
      ⊎ ((f : FunctionDefinition) × (g : H) × (tool.function ≡ some f)
          × (h ≡ some g)
          × (register tool h r ≡ stored f.name tool g r))
unfolding register
register_cases tool none r = inl refl
register_cases tool (some g) r = elim (Option-cases tool.function) [
  | inl n ↦ inl (rw n refl)
  | inr (f, n) ↦ inr (
    f,
    g,
    n,
    refl,
    elim (Bool-cases (has_key f.name r.handlers)) [
      | inl y ↦ rw (n, y) refl
      | inr m ↦ rw (n, m) refl
    ],
  )
]

stored-IsRegistered :
    {H : Type 0} (f : FunctionDefinition) (tool : Tool) (g : H) (r : ToolRegistry H)
    → tool.function ≡ some f
    → IsRegistered r
    → IsRegistered (stored f.name tool g r)
stored-IsRegistered f tool g r h i = elim (Bool-cases (has_key f.name r.handlers)) [
  | inl y ↦
      rw (keys-insert f.name g r.handlers, y) (replace_tool-advertised tool f r.tools h ∙ i.0, i.1)
  | inr m ↦
      let k = keys r.handlers in
      let n : name_of tool ≡ some f.name = rw h refl in
      rw (keys-insert f.name g r.handlers, m)
        (
          advertised-append r.tools tool ∙ rw (i.0, n) (sym (map-append_one k f.name)),
          IsUnique-append k f.name i.1 (is_listed-keys f.name r.handlers ∙ m),
        )
]

-- `Register` keeps the advertised tools and the handlers in step.
pub register-IsRegistered :
    {H : Type 0} (tool : Tool) (h : Option H) (r : ToolRegistry H)
    → IsRegistered r
    → IsRegistered (register tool h r)
register-IsRegistered tool h r i = elim (register_cases tool h r) [
  | inl e ↦ rw e i
  | inr (f, g, n, q, e) ↦ rw e (stored-IsRegistered f tool g r n i)
]
