-- ===== src/EsiClient/Pacer.antt =====
-- The token bucket of app/esi_client.py. Amounts of tokens are in ticks' worth, so that a token is
-- `second` of them and a tick brings in as many as requests are allowed in a second. The rate is a
-- natural number, and a wait is rounded up to whole ticks.
use eve_api_cache.Base.{ℕ, ◌+◌, ◌-◌, ◌*◌, ◌/◌, min, max, ltb, ◌==◌, if◌then◌else◌}
use eve_api_cache.Base.Exec.{Exec, ok}
use eve_api_cache.EsiClient.State.{Settings, Network, Bucket, Client}

-- `_rate_burst`: at least one token
abbrev pub burst : ℕ → ℕ → ℕ
burst second rate = max second (rate * second)

-- The bucket at time `now`, filled up.
unfoldable pub refill : ℕ → ℕ → ℕ → Bucket → Bucket
refill second rate now b = record {
  tokens = min (burst second rate) (b.tokens + (now - b.updated) * rate);
  updated = now;
}

-- `(1.0 - self._tokens) / rate`, in ticks
unfoldable pub token_wait : ℕ → ℕ → Bucket → ℕ
token_wait second rate b = (second - b.tokens + rate - 1) / rate

module _ (cfg : Settings) (second : ℕ) (net : Network) where
  open net use {World, monotonic, sleep}

  unfoldable pub pace : Exec (Client World) (Unit {0})
  unfolding refill token_wait
  pace c =
      let rate = cfg.esi_max_requests_per_second in
      let b = refill second rate (monotonic c.world) c.bucket in
      if rate == 0
      then (ok tt, c)
      else if ltb b.tokens second
      then (let w = sleep (token_wait second rate b) c.world in
          (ok tt, record c { bucket = record { tokens = 0; updated = monotonic w }; world = w }))
      else (ok tt, record c { bucket = record b { tokens = b.tokens - second } })
