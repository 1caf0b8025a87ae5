-- ===== src/EsiClient/Breaker.antt =====
-- The error-budget breaker of app/esi_client.py.
use eve_api_cache.Base.{
  ℕ, zero, ◌+◌, ◌-◌, ◌*◌, ◌≤◌, ◌<◌, ◌≡◌, max, Bool, true, false, ◌||◌, Option, none, some, List,
  ◌∷◌, ◌==◌, leb, ltb, if◌then◌else◌, text, arith,
}
use eve_api_cache.Base.Ints.{ℤ, pos, negsuc}
use eve_api_cache.Events.{Event, set_gauge}
use eve_api_cache.EsiClient.Headers.{HttpResponse, int_header}
use eve_api_cache.EsiClient.State.{Settings, Budget}

-- `_RATE_LIMIT_STATUSES`
abbrev pub is_rate_limit : ℕ → Bool
is_rate_limit status = status == 420 || status == 429

-- `<=` on integers
abbrev pub int_leb : ℤ → ℤ → Bool
int_leb (pos a) (pos b) = leb a b
int_leb (pos a) (negsuc b) = false
int_leb (negsuc a) (pos b) = true
int_leb (negsuc a) (negsuc b) = leb b a

-- `a or b` where `a` is an optional integer
abbrev pub or_int : Option ℤ → ℤ → ℤ
or_int none other = other
or_int (some (pos zero)) other = other
or_int (some v) other = v

-- A time some seconds from `now`, which are `second` ticks each; never before 0.
abbrev pub seconds_from : ℕ → ℕ → ℤ → ℕ
seconds_from second now (pos n) = now + n * second
seconds_from second now (negsuc n) = now - (n + 1) * second

abbrev or_keep : Option ℤ → Option ℤ → Option ℤ
or_keep none old = old
or_keep (some v) old = some v

abbrev low : ℤ → Option ℤ → Bool
low threshold none = false
low threshold (some remain) = int_leb remain threshold

module _ (cfg : Settings) (second : ℕ) where
  -- `trip`
  unfoldable pub trips : HttpResponse → Bool
  trips resp =
      is_rate_limit resp.status_code
      || low cfg.esi_error_budget_threshold (int_header resp (text "x-esi-error-limit-remain"))

  -- `block_for`, in seconds
  unfoldable pub block_for : HttpResponse → ℤ
  block_for resp = or_int (int_header resp (text "retry-after")) (
      or_int (int_header resp (text "x-esi-error-limit-reset"))
        (pos cfg.esi_error_budget_block_seconds))

  -- The state of the breaker after `_note_response_budget` at time `now`.
  unfoldable pub note_budget : HttpResponse → ℕ → Budget → Budget
  unfolding trips block_for
  note_budget resp now b = record {
    error_limit_remain =
        or_keep (int_header resp (text "x-esi-error-limit-remain")) b.error_limit_remain;
    error_limit_reset =
        or_keep (int_header resp (text "x-esi-error-limit-reset")) b.error_limit_reset;
    blocked_until =
        if trips resp
        then max b.blocked_until (seconds_from second now (block_for resp))
        else b.blocked_until;
  }

-- `_budget_blocked`, `is_budget_blocked`
unfoldable pub budget_blocked : ℕ → Budget → Bool
budget_blocked now b = ltb now b.blocked_until

abbrev gauge_of_remain : Option ℤ → List Event → List Event
gauge_of_remain none events = events
gauge_of_remain (some remain) events = set_gauge (text "esi_error_limit_remain") remain ∷ events

-- The gauges that `_note_response_budget` sets, `b` being the state after it.
unfoldable pub budget_events : HttpResponse → ℕ → Budget → List Event → List Event
unfolding budget_blocked
budget_events resp now b events =
    set_gauge (text "esi_budget_blocked") (if budget_blocked now b then pos 1 else pos 0)
    ∷ gauge_of_remain (int_header resp (text "x-esi-error-limit-remain")) events

-- `budget_status`: the time that is left of the block, in ticks
unfoldable pub block_remaining : ℕ → Budget → ℕ
block_remaining now b = b.blocked_until - now

-- A response never shortens a block.
pub blocked_until-le-note_budget :
    (cfg : Settings) (second : ℕ) (resp : HttpResponse) (now : ℕ) (b : Budget)
    → b.blocked_until ≤ (note_budget cfg second resp now b).blocked_until
unfolding note_budget
blocked_until-le-note_budget cfg second resp now b = ground arith

-- After a response that trips the breaker and asks for `n` more seconds, or gives no hint where
-- the setting is `n`, the breaker is engaged until those `n` seconds have passed.
pub note_budget-blocked :
    (cfg : Settings) (second n : ℕ) (resp : HttpResponse) (now t : ℕ) (b : Budget)
    → trips cfg second resp ≡ true
    → block_for cfg second resp ≡ pos n
    → t < now + n * second
    → budget_blocked t (note_budget cfg second resp now b) ≡ true
unfolding note_budget budget_blocked
note_budget-blocked cfg second n resp now t b trip wait h = rw (trip, wait) (ground arith)
