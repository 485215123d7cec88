-- ===== src/RustGateway/Server/Responses.antt =====
-- The responses that the server builds itself, and the headers they carry.
use app_gate.Base.{ℕ, String, ◌≡◌, refl, true, some, [], ◌∷◌, ◌++◌, All, All-append}
use app_gate.Base.Http.{
  Bytes, bytes_of, Headers, Response, HttpCrate, HttpLaws, is_token, is_visible, with_body,
  headers_ok,
}
use app_gate.RustGateway.Server.{
  with_security_headers, error_body, health_response, ready_response, metrics_response,
  not_found_response, proxy_error_response,
}

-- The headers that every response should carry.
abbrev pub security_headers : Headers
security_headers =
    ("x-content-type-options", "nosniff")
    ∷ ("x-frame-options", "DENY")
    ∷ ("x-xss-protection", "1; mode=block")
    ∷ ("strict-transport-security", "max-age=31536000; includeSubDomains")
    ∷ ("referrer-policy", "strict-origin-when-cross-origin")
    ∷ ("permissions-policy", "geolocation=(), microphone=(), camera=()")
    ∷ []

abbrev pub IsPlainHeader : String × String → Type 0
IsPlainHeader h = (is_token h.0 ≡ true) × (is_visible h.1 ≡ true)

-- What a response of the server itself looks like.
abbrev pub local : ℕ → Headers → String → Response
local status headers body = record {
  status = status;
  headers = security_headers ++ headers;
  body = bytes_of body;
}

abbrev pub id_headers : String → Headers
id_headers request_id = ("content-type", "application/json") ∷ ("x-request-id", request_id) ∷ []

-- The headers of a response that is relayed from the upstream.
abbrev pub relay_headers : Headers
relay_headers = ("content-type", "application/json") ∷ ("x-appgate-proxy", "1") ∷ []

security_headers-IsPlainHeader : All IsPlainHeader security_headers
unfolding is_token is_visible
security_headers-IsPlainHeader =
    let p : (true ≡ true) × (true ≡ true) = (refl, refl) in (p, (p, (p, (p, (p, (p, tt))))))

pub id_headers-IsPlainHeader :
    (request_id : String) → is_visible request_id ≡ true → All IsPlainHeader (id_headers request_id)
unfolding is_token is_visible
id_headers-IsPlainHeader request_id h = ((refl, refl), ((refl, h), tt))

module _ (http : HttpCrate) (laws : HttpLaws http) where
  pub headers_ok_plain :
      (headers : Headers) → All IsPlainHeader headers → headers_ok http headers ≡ true
  headers_ok_plain [] h = refl
  headers_ok_plain ((name, value) ∷ rest) ((token, visible), h) =
      simp (laws.plain_header name value token visible) (headers_ok_plain rest h)

  accepted :
      (status : ℕ) (headers : Headers) (body : Bytes)
      → All IsPlainHeader headers
      → with_body http body (record { status = status; headers = headers })
        ≡ some (record { status = status; headers = headers; body = body })
  unfolding with_body
  accepted status headers body h = simp (headers_ok_plain headers h) refl

  pub local_built :
      (status : ℕ) (headers : Headers) (body : String)
      → All IsPlainHeader headers
      → with_body http
          (bytes_of body)
          (record { status = status; headers = security_headers ++ headers })
        ≡ some (local status headers body)
  local_built status headers body h =
      accepted status (security_headers ++ headers) (bytes_of body)
        (All-append IsPlainHeader security_headers headers security_headers-IsPlainHeader h)

  abbrev typed : String → Headers
  typed content_type = ("content-type", content_type) ∷ []

  pub health_built :
      health_response http ≡ some (local 200 (typed "application/json") "{\"status\":\"healthy\"}")
  unfolding health_response with_security_headers is_token is_visible
  health_built = local_built 200 _ _ ((refl, refl), tt)

  pub ready_built :
      ready_response http ≡ some (local 200 (typed "application/json") "{\"status\":\"ready\"}")
  unfolding ready_response with_security_headers is_token is_visible
  ready_built = local_built 200 _ _ ((refl, refl), tt)

  pub metrics_built :
      (metrics : String)
      → metrics_response http metrics ≡ some (local 200 (typed "text/plain; version=0.0.4") metrics)
  unfolding metrics_response with_security_headers is_token is_visible
  metrics_built metrics = local_built 200 _ metrics ((refl, refl), tt)

  pub not_found_built :
      (request_id : String)
      → is_visible request_id ≡ true
      → not_found_response http request_id
        ≡ some (
            local 404
              (id_headers request_id)
              "{\"error\":\"not_found\",\"message\":\"The requested resource was not found\"}")
  unfolding not_found_response with_security_headers
  not_found_built request_id h = local_built 404 _ _ (id_headers-IsPlainHeader request_id h)

  pub proxy_error_built :
      (status : ℕ) (code message request_id : String)
      → is_visible request_id ≡ true
      → proxy_error_response http status code message request_id
        ≡ some (local status (id_headers request_id) (error_body code message request_id))
  unfolding proxy_error_response with_security_headers
  proxy_error_built status code message request_id h =
      local_built status _ _ (id_headers-IsPlainHeader request_id h)

  pub relayed_built :
      (status : ℕ) (body : Bytes)
      → with_body http body (record { status = status; headers = relay_headers })
        ≡ some (record { status = status; headers = relay_headers; body = body })
  unfolding is_token is_visible
  relayed_built status body = accepted status _ body ((refl, refl), ((refl, refl), tt))
