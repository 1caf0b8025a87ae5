-- ===== src/EsiClient/Traffic.antt =====
-- How many requests app/esi_client.py sends, over a network that counts them.
use eve_api_cache.Base.{
  ℕ, zero, suc, ◌+◌, ◌≤◌, ◌≡◌, ◌⊎◌, inl, inr, ap, subst, Bool, true, false, not, ◌||◌, Option, none,
  some, arith, Bool-cases,
}
use native.Mathlib.Numerals.{add-one}
use eve_api_cache.Base.Exec.{Exec, Result, ok, raise}
use eve_api_cache.EsiClient.Headers.{HttpResponse}
use eve_api_cache.EsiClient.State.{Settings, Network, Request, Client}
use eve_api_cache.EsiClient.Breaker.{is_rate_limit}
use eve_api_cache.EsiClient.Pacer.{pace}
use eve_api_cache.EsiClient.Retry.{
  is_retriable, send_request, settle, settle_last, attempts, request_with_retries,
}

-- The same network, with a count of what was sent.
abbrev pub counting : Network → Network
counting net = record {
  World = net.World × ℕ;
  send = λ q w. ((net.send q w.0).0, ((net.send q w.0).1, w.1 + 1));
  monotonic = λ w. net.monotonic w.0;
  wall_clock = λ w. net.wall_clock w.0;
  sleep = λ n w. (net.sleep n w.0, w.1);
  send_later = λ q w. net.send_later q w.0;
  sleep_later = λ n w. net.sleep_later n w.0;
}

module _ (cfg : Settings) (second : ℕ) (net : Network) where
  abbrev pub Counted : Type 0
  Counted = Client (net.World × ℕ)

  abbrev pub sent : Counted → ℕ
  sent c = c.world.1

  -- An answer after which the loop of attempts stops by itself.
  abbrev pub is_settled : Result HttpResponse → Bool
  is_settled (ok resp) = is_rate_limit resp.status_code || not (is_retriable resp.status_code)
  is_settled (raise e) = false

  pace-sent : (c : Counted) → sent (pace cfg second (counting net) c).1 ≡ sent c
  unfolding pace
  pace-sent c = ground arith

  pace_returns : (c : Counted) → (pace cfg second (counting net) c).0 ≡ ok tt
  unfolding pace
  pace_returns c = ground arith

  -- At most `k` requests more than before, at least `l`, and exactly `k` unless the answer settled
  -- the loop.
  record Sends (l k before : ℕ) (end : Result HttpResponse × Counted) : Type 0 where
    pub least : before + l ≤ sent end.1
    pub most : sent end.1 ≤ before + k
    pub exact : (is_settled end.0 ≡ true) ⊎ (sent end.1 ≡ before + k)

  weaken :
      (k before : ℕ) (end : Result HttpResponse × Counted)
      → Sends 1 k before end
      → Sends 0 k before end
  weaken k before end s = record { least = omega (arith, s.least); most = s.most; exact = s.exact }

  -- One request was sent before.
  one_before :
      (k before after : ℕ) (end : Result HttpResponse × Counted)
      → after ≡ before + 1
      → Sends 0 k after end
      → Sends 1 (k + 1) before end
  one_before k before after end e s = record {
    least = omega (arith, s.least);
    most = omega (arith, s.most);
    exact = elim s.exact [ inl settled ↦ inl settled | inr all ↦ inr (omega arith) ];
  }

  settle-Sends :
      (again : Exec Counted HttpResponse) (k attempt : ℕ) (answer : Option HttpResponse)
      (c : Counted)
      → ((d : Counted) → Sends 1 k (sent d) (again d))
      → Sends 0 k (sent c) (settle cfg second (counting net) again attempt answer c)
  unfolding settle
  settle-Sends again k attempt none c h = weaken _ _ _ (h _)
  settle-Sends again k attempt (some resp) c h =
      elim (Bool-cases (is_rate_limit resp.status_code || not (is_retriable resp.status_code))) [
        | inl final ↦
            rw final (record { least = omega arith; most = omega arith; exact = inl final })
        | inr again' ↦ rw again' (weaken _ _ _ (h _))
      ]

  settle_last-Sends :
      (answer : Option HttpResponse) (c : Counted)
      → Sends 0 0 (sent c) (settle_last cfg second (counting net) answer c)
  unfolding settle_last
  settle_last-Sends none c = record {
    least = omega arith;
    most = omega arith;
    exact = inr (omega arith);
  }
  settle_last-Sends (some resp) c = record {
    least = omega arith;
    most = omega arith;
    exact = inr (omega arith);
  }

  attempts-Sends :
      (q : Request) (left attempt : ℕ) (c : Counted)
      → Sends 1 (left + 1) (sent c) (attempts cfg second (counting net) q left attempt c)
  unfolding attempts send_request
  attempts-Sends q zero attempt c =
      rw (pace_returns c)
        (one_before 0 _ _ _ (ap (λ (n : ℕ). n + 1) (pace-sent c)) (settle_last-Sends _ _))
  attempts-Sends q (suc left) attempt c = rw (pace_returns c) (
      one_before (suc left) _ _ _ (ap (λ (n : ℕ). n + 1) (pace-sent c)) (
        settle-Sends (attempts cfg second (counting net) q left (attempt + 1)) (suc left) attempt _
          _
          (λ d.
            subst
              (λ k. Sends 1 k (sent d) (attempts cfg second (counting net) q left (attempt + 1) d))
              (add-one left) (attempts-Sends q left (attempt + 1) d))))

  -- One call sends at least one request and at most one more than the retries allowed; it sends
  -- exactly that many unless the answer was one that is not retried, a throttle or a status other
  -- than 502, 503 and 504.
  pub request_with_retries_sends :
      (q : Request) (c : Counted)
      → let end = request_with_retries cfg second (counting net) q c in
        (sent c + 1 ≤ sent end.1)
        × (sent end.1 ≤ sent c + cfg.esi_max_retries + 1)
        × ((is_settled end.0 ≡ true) ⊎ (sent end.1 ≡ sent c + cfg.esi_max_retries + 1))
  unfolding request_with_retries
  request_with_retries_sends q c =
      let s = attempts-Sends q cfg.esi_max_retries 0 c in
      (
        s.least,
        omega (arith, s.most),
        elim s.exact [ inl settled ↦ inl settled | inr all ↦ inr (omega arith) ],
      )
