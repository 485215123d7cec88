-- ===== src/RustGateway/Router/Selection.antt =====
-- Which upstream a path and a model are sent to.
use text.Mathlib.Text.{starts_with}
use text.Mathlib.TextBridge.{IsPrefix}
use text.Mathlib.TextEquality.{starts_with_iff}
use app_gate.Base.{
  String, ◌≡◌, refl, ◌∙◌, ◌⊎◌, inl, inr, Bool, true, false, Option, none, some, List, [], ◌∷◌,
  arith, ◌==◌, ◌+++◌, eq_iff, All, IsFirst, find_first, find_first_cases, ap, if◌then◌else◌,
}
use mathlib.Core.Option
use app_gate.Base.Result.{Result, ok, err}
use app_gate.RustGateway.Config.{GatewayConfig}
use app_gate.RustGateway.Router.{
  or_default_upstream, Route, Router, new, select_from, select, provider_of_model, find_provider,
  get_provider_url,
}

abbrev pub Routes : String → Route → Type 0
Routes path route = IsPrefix route.path_prefix path

upstream_or : String → Option Route → Option String
upstream_or default none = some default
upstream_or default (some route) = some route.upstream

select_from-find :
    (routes : List Route) (default path : String)
    → select_from routes default path
      ≡ upstream_or default (find_first (λ r. starts_with path r.path_prefix) routes)
unfolding select_from find_first upstream_or
select_from-find [] default path = refl
select_from-find (r ∷ rs) default path = ground (arith, select_from-find rs default path)

-- A path goes to the upstream of the first route whose prefix it starts with, and to the default
-- upstream if there is none: there is always an upstream, so the caller's own fallback is never
-- taken.
pub select_cases :
    (r : Router) (path : String)
    → ((route : Route) × IsFirst (Routes path) r.routes route
        × (select r path ≡ some route.upstream))
      ⊎ (All (λ route. ¬ Routes path route) r.routes × (select r path ≡ some r.default_upstream))
unfolding select upstream_or
select_cases r path =
    let found = select_from-find r.routes r.default_upstream path in
    elim (find_first_cases (Routes path) (λ x. starts_with path x.path_prefix)
      (λ x. starts_with_iff path x.path_prefix) r.routes) [
        | inl (route, first, e) ↦ inl (route, first, found ∙ ap (upstream_or r.default_upstream) e)
        | inr (unmatched, e) ↦ inr (unmatched, found ∙ ap (upstream_or r.default_upstream) e)
      ]

find_provider-find :
    (routes : List Route) (provider : String)
    → find_provider routes provider
      ≡ Option.map (λ r. r.upstream) (find_first (λ r. r.provider == provider) routes)
unfolding find_provider find_first
find_provider-find [] provider = refl
find_provider-find (r ∷ rs) provider = ground (arith, find_provider-find rs provider)

-- What `get_provider_url` answers when no route serves the provider.
abbrev pub fallback : Router → String → Result String String
fallback r model =
    if r.default_upstream == ""
    then err ("no upstream configured for model: " +++ model)
    else ok r.default_upstream

abbrev pub Serves : String → Route → Type 0
Serves provider route = route.provider ≡ provider

fallback_lem : (r : Router) (model : String) → or_default_upstream r model none ≡ fallback r model
fallback_lem r model = ground arith

-- A model goes to the upstream of the first route of its provider. Without one it goes to the
-- default upstream, or is an error if that is empty.
pub get_provider_url_cases :
    (r : Router) (model : String)
    → ((route : Route) × IsFirst (Serves (provider_of_model model)) r.routes route
        × (get_provider_url r model ≡ ok route.upstream))
      ⊎ (All (λ route. ¬ Serves (provider_of_model model) route) r.routes
          × (get_provider_url r model ≡ fallback r model))
unfolding get_provider_url
get_provider_url_cases r model =
    let provider = provider_of_model model in
    let found = find_provider-find r.routes provider in
    elim (find_first_cases (Serves provider) (λ x. x.provider == provider)
      (λ x. eq_iff x.provider provider) r.routes) [
        | inl (route, first, e) ↦ inl (
          route,
          first,
          ap (or_default_upstream r model) (found ∙ ap (Option.map (λ x. x.upstream)) e),
        )
        | inr (unserved, e) ↦ inr (
          unserved,
          ap (or_default_upstream r model) (found ∙ ap (Option.map (λ x. x.upstream)) e)
              ∙ fallback_lem r model,
        )
      ]

openai_only :
    (gpt claude llama : Bool)
    → ("openai" == (
        if gpt
        then "openai"
        else if claude
        then "anthropic"
        else if llama
        then "meta"
        else "default"))
      ≡ gpt
openai_only true claude llama = refl
openai_only false true llama = refl
openai_only false false true = refl
openai_only false false false = refl

is_openai : (model : String) → ("openai" == provider_of_model model) ≡ starts_with model "gpt-"
unfolding provider_of_model
is_openai model = openai_only _ _ _

unconfigured :
    (r : Router) (model : String) (gpt : Bool)
    → r.default_upstream ≡ ""
    → or_default_upstream r model (if gpt then some "" else none)
      ≡ (if gpt then ok "" else err ("no upstream configured for model: " +++ model))
unconfigured r model true h = refl
unconfigured r model false h = simp h

-- With no upstream configured and no routes in the environment, a model whose name starts with
-- "gpt-" gets the empty text for an upstream, and every other model an error.
pub get_provider_url_unconfigured :
    (config : GatewayConfig) (model : String)
    → config.upstream.default_url ≡ ""
    → get_provider_url (new config none) model ≡ (
        if starts_with model "gpt-"
        then ok ""
        else err ("no upstream configured for model: " +++ model))
unfolding get_provider_url new
get_provider_url_unconfigured config model h =
    simp (h, is_openai)
      (unconfigured (record (new config none) { default_upstream = "" }) model
        (starts_with model "gpt-") refl)
