-- ===== src/RustGateway/Server/Recording.antt =====
-- What the handler of a request records of it.
use app_gate.Base.{ℕ, String, ◌≡◌, sym, ap, ◌∙◌, Option, none, some, List, [], ◌∷◌, ◌++◌}
use app_gate.Base.Http.{HttpCrate, Response, Request, Send}
use app_gate.RustGateway.Router.{Router}
use app_gate.RustGateway.Server.{recorded, handle_request}

module _ (http : HttpCrate) (send : Send) (router : Router) where
  recorded-some :
      (path : String) (completed later : List (String × ℕ)) (o : Option Response) (r : Response)
      → recorded http send router path completed o ≡ some (r, later)
      → later ≡ completed ++ (path, r.status) ∷ []
  recorded-some path completed later none r h = cc
  recorded-some path completed later (some answer) r h =
      let pairs : ◌≡◌ {A = Response × List (String × ℕ)}
          (answer, completed ++ (path, answer.status) ∷ []) (r, later) =
        cc in
      sym (ap (λ p. p.1) pairs) ∙ ap (λ p. completed ++ (path, p.0.status) ∷ []) pairs

  -- An answered request is recorded once, after those before it, with the status of its answer.
  pub handle_request-recorded :
      (printed request_id : String) (completed later : List (String × ℕ)) (req : Request)
      (r : Response)
      → handle_request http send router printed completed req request_id ≡ some (r, later)
      → later ≡ completed ++ (req.path, r.status) ∷ []
  unfolding handle_request
  handle_request-recorded printed request_id completed later req r h =
      recorded-some req.path completed later _ r h
