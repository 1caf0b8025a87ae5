-- ===== src/Routes/Handler.antt =====
-- The catch-all route of app/routes.py. It has the rate limiter and the proxy's state in its hands.
use eve_api_cache.Base.{
  Bool-cases, inl, inr, ℕ, ◌≡◌, refl, Bool, true, false, Option, none, some, List, [], ◌∷◌, ◌++◌,
  ltb, if◌then◌else◌, Text, Bytes, text, text_eq, length, arith, ◌<◌, inl, inr,
}
use eve_api_cache.Base.Dict.{Dict, lookup, insert}
use eve_api_cache.Base.Exec.{Exec, Result, ok, raise}
use eve_api_cache.Base.Ints.{ℤ, pos, negsuc, int_of, str_nat}
use eve_api_cache.RateLimit.{Limiter, allow}
use eve_api_cache.Coalesce.{Turn}
use eve_api_cache.Events.{inc_counter}
use eve_api_cache.EsiClient.Fetch.{EsiResponse}
use eve_api_cache.Proxy.Defs.{Env, State, ProxyResult}
use eve_api_cache.Proxy.Effects.{emit}
use eve_api_cache.Proxy.Dispatch.{proxy_request}
use eve_api_cache.Routes.{
  HttpRequest, HttpAnswer, json_type, cache_status_headers, error_response, client_key,
  read_body_capped,
}
use eve_api_cache.Routes.Bodies.{concat, within, read_body_capped-concat}

-- The settings of the routes.
pub record RouteSettings : Type 0 where
  pub trusted_proxies : List Text
  pub max_post_body_bytes : ℕ

-- What the body's checks come to.
pub data Reading : Type 0 where
  refused : HttpAnswer → Reading
  body_of : Option Bytes → Reading

abbrev pub exceeds : ℤ → ℕ → Bool
exceeds (pos n) limit = ltb limit n
exceeds (negsuc n) limit = false

abbrev pub too_large : HttpAnswer
too_large = error_response (text "{\"error\":\"request body too large\"}") 413

abbrev pub invalid_length : HttpAnswer
invalid_length = error_response (text "{\"error\":\"invalid content-length\"}") 400

abbrev pub capped : Option Bytes → Reading
capped none = refused too_large
capped (some body) = body_of (some body)

-- The check of the declared length, before `rest`.
unfoldable pub check_declared : ℕ → Option Text → Reading → Reading
check_declared limit none rest = rest
check_declared limit (some []) rest = rest
check_declared limit (some (c ∷ cs)) rest = elim (int_of (c ∷ cs)) [
  | none ↦ refused invalid_length
  | some declared ↦ if exceeds declared limit then refused too_large else rest
]

-- From `body = None` on.
unfoldable pub read_body : ℕ → HttpRequest → Reading
read_body limit request =
    if text_eq request.method (text "POST")
    then check_declared limit (lookup (text "content-length") request.headers)
        (capped (read_body_capped limit request.stream))
    else body_of none

within-none : (limit : ℕ) (body : Bytes) → limit < length body → within limit body ≡ none
within-none limit body h = ground arith

abbrev no_number : Option ℤ → Bool
no_number none = true
no_number (some n) = false

-- A length is declared that is no number.
abbrev pub is_malformed : Option Text → Bool
is_malformed none = false
is_malformed (some []) = false
is_malformed (some (c ∷ cs)) = no_number (int_of (c ∷ cs))

-- The answer to a body that is over the cap.
abbrev pub oversize_answer : Option Text → HttpAnswer
oversize_answer declared = if is_malformed declared then invalid_length else too_large

check_declared-too_large :
    (limit : ℕ) (declared : Option Text)
    → check_declared limit declared (refused too_large) ≡ refused (oversize_answer declared)
unfolding check_declared
check_declared-too_large limit none = refl
check_declared-too_large limit (some []) = refl
check_declared-too_large limit (some (c ∷ cs)) = of_number (int_of (c ∷ cs))
  where
    of_number :
        (o : Option ℤ)
        → elim o [
          | none ↦ refused invalid_length
          | some declared ↦ if exceeds declared limit then refused too_large else refused too_large
        ]
          ≡ refused (if no_number o then invalid_length else too_large)
    of_number none = refl
    of_number (some declared) = elim (Bool-cases (exceeds declared limit)) [
      | inl over ↦ rw over refl
      | inr under ↦ rw under refl
    ]

read_body_oversize :
    (limit : ℕ) (request : HttpRequest)
    → text_eq request.method (text "POST") ≡ true
    → limit < length (concat request.stream)
    → read_body limit request
      ≡ refused (oversize_answer (lookup (text "content-length") request.headers))
unfolding read_body
read_body_oversize limit request post large =
    rw
      (
        post,
        read_body_capped-concat limit request.stream,
        within-none limit (concat request.stream) large,
      )
      (check_declared-too_large limit (lookup (text "content-length") request.headers))

-- The answer to a client that is over its rate.
abbrev pub rate_limited : HttpAnswer
rate_limited = record {
  content = text "{\"error\":\"rate limit exceeded\"}";
  status_code = pos 429;
  media_type = json_type;
  headers =
      (text "X-Cache", text "ERROR")
      ∷ (text "X-RateLimit-Remaining", text "0")
      ∷ (text "Retry-After", text "60")
      ∷ [];
}

abbrev pub with_location : Option Text → Dict Text → Dict Text
with_location none headers = headers
with_location (some []) headers = headers
with_location (some (c ∷ cs)) headers = insert (text "Location") (c ∷ cs) headers

-- The response for a result of the proxy.
unfoldable pub answer_of : ℕ → ProxyResult → HttpAnswer
answer_of remaining result = record {
  content = result.body;
  status_code = result.status;
  media_type = result.content_type;
  headers = with_location result.location (
      insert (text "X-RateLimit-Remaining") (str_nat remaining)
        (cache_status_headers result.cache_status));
}

-- `f"/{version}/{path}"`
abbrev pub full_path_of : HttpRequest → Text
full_path_of request = b'/' ∷ request.version ++ b'/' ∷ request.path

abbrev pub answered : {S : Type 0} → ℕ → Result ProxyResult × S → Result HttpAnswer × S
answered remaining (ok result, s) = (ok (answer_of remaining result), s)
answered remaining (raise e, s) = (raise e, s)

module _ (env : Env) (cfg : RouteSettings) where
  -- Behind the limiter.
  unfoldable pub forward :
      HttpRequest
      → Turn (State env) EsiResponse
      → Turn (State env) EsiResponse
      → ℕ
      → Exec (State env) HttpAnswer
  forward request turn refetch remaining s = elim (read_body cfg.max_post_body_bytes request) [
    | refused answer ↦ (ok answer, s)
    | body_of body ↦ answered remaining (
        proxy_request env (full_path_of request) request.method request.query_params body turn
          refetch s)
  ]

  -- From the limiter's answer on.
  unfoldable pub limited :
      HttpRequest
      → Turn (State env) EsiResponse
      → Turn (State env) EsiResponse
      → Bool × ℕ
      → Exec (State env) HttpAnswer
  limited request turn refetch (true, remaining) = forward request turn refetch remaining
  limited request turn refetch (false, remaining) =
      λ s. (ok rate_limited, (emit env (inc_counter (text "client_rate_limited_total") []) s).1)

  -- `proxy`, at a time of the limiter's clock
  unfoldable pub proxy :
      HttpRequest
      → ℕ
      → Turn (State env) EsiResponse
      → Turn (State env) EsiResponse
      → Exec (Limiter × State env) HttpAnswer
  proxy request now turn refetch (limiter, s) =
      let (limiter', answer) = allow limiter now (client_key request cfg.trusted_proxies) in
      let (r, s') = limited request turn refetch answer s in (r, (limiter', s'))

  forward-refused :
      (request : HttpRequest) (turn refetch : Turn (State env) EsiResponse) (remaining : ℕ)
      (s : State env) (answer : HttpAnswer)
      → read_body cfg.max_post_body_bytes request ≡ refused answer
      → forward request turn refetch remaining s ≡ (ok answer, s)
  unfolding forward
  forward-refused request turn refetch remaining s answer e = rw (e, forward) refl

  -- A POST whose body is over the cap never reaches the proxy, whatever length it declares, and
  -- changes no state: it is answered with 400 if it declares a length that is no number, and with 413
  -- otherwise.
  pub forward_oversize :
      (request : HttpRequest) (turn refetch : Turn (State env) EsiResponse) (remaining : ℕ)
      (s : State env)
      → text_eq request.method (text "POST") ≡ true
      → cfg.max_post_body_bytes < length (concat request.stream)
      → forward request turn refetch remaining s
        ≡ (ok (oversize_answer (lookup (text "content-length") request.headers)), s)
  forward_oversize request turn refetch remaining s post large =
      forward-refused request turn refetch remaining s _
        (read_body_oversize cfg.max_post_body_bytes request post large)
