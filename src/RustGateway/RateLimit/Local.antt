-- ===== src/RustGateway/RateLimit/Local.antt =====
-- What a service without a Redis server answers.
use app_gate.Base.{
  ◌⊎◌, inl, inr, ◌∙◌, String, ◌≡◌, refl, ap, Bool, Option, none, some, List, [], ◌∷◌, map,
}
use app_gate.Base.Governor.{Governor, grants, per_second}
use app_gate.Base.Result.{Result, ok, ◌>>=◌}
use app_gate.RustGateway.RateLimit.{Redis}
use app_gate.RustGateway.RateLimit.Service.{RateLimiterService, Check, new_local, new, check}

module _ {S L : Type 0} (redis : Redis S) (governor : Governor L) where
  -- The answers to a sequence of checks, up to the first error.
  unfoldable pub answers : List Check → RateLimiterService S L → Result (List Bool) String
  answers [] s = ok []
  answers (c ∷ cs) s = do r ← check redis governor c s; rest ← answers cs r.1; ok (r.0 ∷ rest)

  answers-local :
      (cs : List Check) (limiter : L)
      → answers cs (record { redis = none; local = some limiter })
        ≡ ok (grants governor (map (λ c. c.now) cs) limiter)
  unfolding answers check grants
  answers-local [] limiter = refl
  answers-local (c ∷ cs) limiter =
      let rest = answers-local cs (governor.check c.now limiter).1 in simp (rest) refl

  new-without_url :
      (connect : String → Result S String) (url : Option String)
      → (url ≡ none) ⊎ (url ≡ some "")
      → new redis governor connect url ≡ ok (new_local redis governor)
  unfolding new
  new-without_url connect url (inl h) = simp (h) refl
  new-without_url connect url (inr h) = simp (h) refl

  -- Without the address of a Redis server, a service answers any sequence of checks as one limiter
  -- of 1000 a second answers at their times: whoever asks, and whatever the limits and windows.
  pub new-answers :
      (connect : String → Result S String) (url : Option String) (cs : List Check)
      → (url ≡ none) ⊎ (url ≡ some "")
      → (new redis governor connect url >>= answers cs)
        ≡ ok (grants governor (map (λ c. c.now) cs) (governor.direct (per_second 1000)))
  unfolding new_local
  new-answers connect url cs h =
      ap (λ r. r >>= answers cs) (new-without_url connect url h)
      ∙ answers-local cs (governor.direct (per_second 1000))
