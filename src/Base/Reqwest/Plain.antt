-- ===== src/Base/Reqwest/Plain.antt =====
-- A crate `reqwest` over a given transport, for the tests.
use text.Mathlib.Text.{starts_with}
use Prim.Native.String.{String}
use mathlib.Core.Path.{◌≡◌, refl, sym, ap, ◌∙◌}
use mathlib.Core.Bool.{Bool, true, false, not, ◌&&◌}
use app_gate.Base.Http.{Send, UpstreamResponse}
use app_gate.Base.Reqwest.{Reqwest, ReqwestLaws}
use app_gate.Base.Result.{Result, ok, err, ok_inj}
use app_gate.Base.Tests.{if◌then◌else◌}

abbrev pub takes_http2 : String → Bool
takes_http2 url = starts_with url "https://"

module _ (send : Send) where
  -- A crate whose clients for HTTP/2 fail at an address that has no TLS.
  abbrev pub reqwest : Reqwest
  reqwest = record {
    build = λ settings. ok (λ req.
        if settings.http2_prior_knowledge && not (starts_with req.url "https://")
        then err "connection closed"
        else send req);
  }

  reqwest_fails :
      (http2 secure : Bool) (answer : Result UpstreamResponse String)
      → http2 ≡ true
      → secure ≡ false
      → (e : String) × ((if http2 && not secure then err "connection closed" else answer) ≡ err e)
  reqwest_fails http2 secure answer h s = ("connection closed", simp (h, s) refl)

  pub reqwest-ReqwestLaws : ReqwestLaws reqwest takes_http2
  reqwest-ReqwestLaws = record {
    prior_knowledge = λ settings client request h built http1.
        let (e, failed) =
          reqwest_fails settings.http2_prior_knowledge (takes_http2 request.url) (send request) h
            http1 in
        (e, ap (λ c. c request) (sym (ok_inj built)) ∙ failed);
  }

  -- What it builds with `http2_prior_knowledge`.
  abbrev pub http2_client : Send
  http2_client = λ req.
      if true && not (starts_with req.url "https://") then err "connection closed" else send req
