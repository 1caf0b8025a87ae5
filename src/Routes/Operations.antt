-- ===== src/Routes/Operations.antt =====
-- The endpoints of app/routes.py for operations: health, the state of the collector and the metrics.
use eve_api_cache.Base.{ℕ, ◌≡◌, refl, false, Option, List, [], if◌then◌else◌, length, Text, text}
use eve_api_cache.Base.Ints.{pos}
use eve_api_cache.Json.{Value, str, int, list, object, member, end, of_elements}
use eve_api_cache.Metrics.{Floats, Registry}
use eve_api_cache.Metrics.Exposition.{render}
use eve_api_cache.Scheduler.Status.{LibraryJob, scheduler_status}
use eve_api_cache.Routes.{HttpRequest, HttpAnswer, require_ops_token}

-- What FastAPI is given to answer with.
pub data Reply : Type 0 where
  http_exception : ℕ → Text → Reply
  document : Value → Reply
  response : HttpAnswer → Reply

abbrev pub health : Reply
health = document (object (member (text "status") (str (text "ok")) end))

-- `_require_ops_token` ahead of an endpoint
abbrev pub gated : Option Text → HttpRequest → Reply → Reply
gated ops_api_token request reply =
    if require_ops_token ops_api_token request
    then reply
    else http_exception 401 (text "ops token required")

abbrev pub collector_status : Option Text → (ℕ → Text) → List LibraryJob → HttpRequest → Reply
collector_status ops_api_token isoformat jobs request = gated ops_api_token request (
    document (
      object (
        member (text "jobs") (list (of_elements (scheduler_status isoformat jobs)))
          (member (text "count") (int false (length (scheduler_status isoformat jobs))) end))))

abbrev pub metrics_endpoint :
    Option Text → (floats : Floats) → Registry floats.Float → HttpRequest → Reply
metrics_endpoint ops_api_token floats metrics request = gated ops_api_token request (
    response (record {
      content = render floats metrics;
      status_code = pos 200;
      media_type = text "text/plain; version=0.0.4; charset=utf-8";
      headers = [];
    }))

-- A request without the token that is asked for learns neither the jobs nor the metrics.
gated_hides :
    (ops_api_token : Option Text) (isoformat : ℕ → Text) (floats : Floats) (jobs : List LibraryJob)
    (metrics : Registry floats.Float) (request : HttpRequest)
    → require_ops_token ops_api_token request ≡ false
    → (collector_status ops_api_token isoformat jobs request
        ≡ http_exception 401 (text "ops token required"))
      × (metrics_endpoint ops_api_token floats metrics request
          ≡ http_exception 401 (text "ops token required"))
gated_hides ops_api_token isoformat floats jobs metrics request h = rw h (refl, refl)
