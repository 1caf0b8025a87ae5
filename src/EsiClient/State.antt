-- ===== src/EsiClient/State.antt =====
-- The settings and the state of `ESIClient`, and the network and clocks that it uses.
use eve_api_cache.Base.{ℕ, ◌+◌, ◌≤◌, Option, List, ◌∷◌, Text, Bytes}
use eve_api_cache.Base.Dict.{Dict}
use eve_api_cache.Base.Exec.{Exec, ok}
use eve_api_cache.Base.Ints.{ℤ}
use eve_api_cache.Events.{Event}
use eve_api_cache.EsiClient.Headers.{HttpResponse}

-- The fields of `Settings` that the client reads; delays and the block window are in ticks, and
-- the rate is a number of requests per second.
pub record Settings : Type 0 where
  pub esi_max_retries : ℕ
  pub esi_retry_base_delay : ℕ
  pub esi_retry_max_delay : ℕ
  pub esi_error_budget_threshold : ℤ
  pub esi_error_budget_block_seconds : ℕ
  pub esi_max_requests_per_second : ℕ

-- The arguments of `self._http.request`.
pub record Request : Type 0 where
  pub method : Text
  pub path : Text
  pub params : Dict Text
  pub content : Option Bytes
  pub headers : Dict Text

-- The network with its clocks. `send` is one HTTP request, `none` for a `httpx.RequestError`;
-- `sleep` waits for a number of ticks. The monotonic clock does not go back.
pub record Network : Type 1 where
  pub World : Type 0
  pub send : Request → World → Option HttpResponse × World
  pub monotonic : World → ℕ
  pub wall_clock : World → ℕ
  pub sleep : ℕ → World → World
  pub send_later : (q : Request) (w : World) → monotonic w ≤ monotonic (send q w).1
  pub sleep_later : (n : ℕ) (w : World) → monotonic w + n ≤ monotonic (sleep n w)

pub record Budget : Type 0 where
  pub error_limit_remain : Option ℤ
  pub error_limit_reset : Option ℤ
  pub blocked_until : ℕ

-- Tokens are counted in ticks' worth: one token is the number of ticks in a second.
pub record Bucket : Type 0 where
  pub tokens : ℕ
  pub updated : ℕ

pub record Client (World : Type 0) : Type 0 where
  pub budget : Budget
  pub bucket : Bucket
  pub world : World
  pub events : List Event

module _ {World : Type 0} where
  abbrev pub emit : Event → Exec (Client World) (Unit {0})
  emit e c = (ok tt, record c { events = e ∷ c.events })
