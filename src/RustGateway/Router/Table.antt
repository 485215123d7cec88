-- ===== src/RustGateway/Router/Table.antt =====
-- The text of `APPGATE_ROUTES` and the table that it is read as.
use app_gate.Base.{
  ℕ, String, ◌≡◌, refl, ap, ◌∙◌, some, List, [], ◌∷◌, ◌++◌, All, split, splitn, arith,
}
use app_gate.Base.Split.{Lacks, Lacks-append, joined, split_lacking, split-joined, splitn-joined}
use app_gate.RustGateway.Router.{Route, route_of_parts, parse_pair, parse_pairs, parse_routes}

-- How an operator writes a route, and a table of them.
pub show_route : Route → String
show_route r = joined "=" r.path_prefix (joined "=" r.provider r.upstream)

pub show_routes : Route → List Route → String
show_routes r [] = show_route r
show_routes r (s ∷ rest) = joined "," (show_route r) (show_routes s rest)

-- Only the upstream may have a `=`, and nothing a comma.
pub record IsPlain (r : Route) : Type 0 where
  pub prefix_comma : Lacks b',' r.path_prefix
  pub prefix_equals : Lacks b'=' r.path_prefix
  pub provider_comma : Lacks b',' r.provider
  pub provider_equals : Lacks b'=' r.provider
  pub upstream_comma : Lacks b',' r.upstream

splitn_one : (k : ℕ) (s : String) → splitn 1 k s ≡ s ∷ []
unfolding splitn
splitn_one k s = refl

parse_pair-show : (r : Route) → IsPlain r → parse_pair (show_route r) ≡ r ∷ []
unfolding parse_pair show_route
parse_pair-show r h =
    let rest = joined "=" r.provider r.upstream in
    ap route_of_parts (
      splitn-joined "=" 1 r.path_prefix rest h.prefix_equals
      ∙ ap (λ l. r.path_prefix ∷ l)
          (splitn-joined "=" 0 r.provider r.upstream h.provider_equals
            ∙ ap (λ l. r.provider ∷ l) (splitn_one b'=' r.upstream)))

show_route-Lacks : (r : Route) → IsPlain r → Lacks b',' (show_route r)
unfolding show_route
show_route-Lacks r h =
    Lacks-append b',' r.path_prefix _ h.prefix_comma
      (omega arith, Lacks-append b',' r.provider _ h.provider_comma (omega arith, h.upstream_comma))

parse_shown :
    (r : Route) (rs : List Route)
    → All IsPlain (r ∷ rs)
    → parse_pairs (split b',' (show_routes r rs)) ≡ r ∷ rs
unfolding show_routes parse_pairs
parse_shown r [] (h, hs) =
    ap parse_pairs (split_lacking "," (show_route r) (show_route-Lacks r h))
    ∙ ap (λ l. l ++ []) (parse_pair-show r h)
parse_shown r (s ∷ rest) (h, hs) =
    ap parse_pairs (split-joined "," (show_route r) (show_routes s rest) (show_route-Lacks r h))
    ∙ (ap (λ l. l ++ parse_pairs (split b',' (show_routes s rest))) (parse_pair-show r h)
        ∙ ap (λ l. r ∷ l) (parse_shown s rest hs))

-- A table that is written out is read back as it was, if no part has a comma and no prefix or
-- provider has a `=`; an upstream may have one.
pub parse_routes-show :
    (r : Route) (rs : List Route)
    → All IsPlain (r ∷ rs)
    → parse_routes (some (show_routes r rs)) ≡ r ∷ rs
unfolding parse_routes
parse_routes-show r rs h = parse_shown r rs h
