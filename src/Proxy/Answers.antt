-- ===== src/Proxy/Answers.antt =====
-- What `_dispatch` of app/proxy.py makes of an upstream answer.
use eve_api_cache.Base.{
  ℕ, ◌≡◌, inl, inr, refl, sym, ◌∙◌, ap, Bool, true, false, ◌&&◌, ◌||◌, Option, some, Text, Bytes,
  arith, Bool-cases, ltb, leb, ◌==◌, if◌then◌else◌,
}
use eve_api_cache.Base.Exec.{Result, ok, raise, redis_error}
use eve_api_cache.Base.Ints.{pos}
use eve_api_cache.Cache.Views.{set_body_result, set_negative_result}
use eve_api_cache.EsiClient.Fetch.{EsiResponse}
use eve_api_cache.Coalesce.{Turn}
use eve_api_cache.Proxy.Defs.{Env, State, ProxyResult, result, miss}
use eve_api_cache.Proxy.Admission.{Plan}
use eve_api_cache.Proxy.Effects.{cache_get_stale, cache_set, cache_set_negative}
use eve_api_cache.Proxy.Dispatch.{
  on_answer, on_degraded, on_fetched, on_not_modified, on_revalidated, revalidated_ttl,
  from_archive, stale_ttl_for_payload, etag_or,
}

module _ (env : Env) (plan : Plan) (full_path : Text) where
  abbrev pub is_degraded : EsiResponse → Bool
  is_degraded resp = resp.status == 420 || leb 500 resp.status

  pub on_answer_degraded :
      (resp : EsiResponse) (leads : Bool) (s : State env)
      → is_degraded resp ≡ true
      → on_answer env plan full_path (resp, leads) s ≡ on_degraded env plan full_path resp s
  unfolding on_answer
  on_answer_degraded resp leads s degraded = ground arith

  on_degraded-state :
      (resp : EsiResponse) (s : State env) → (on_degraded env plan full_path resp s).1 ≡ s
  unfolding on_degraded
  on_degraded-state resp s = ground arith

  on_degraded-status :
      (resp other : EsiResponse) (s : State env)
      → resp.status ≡ other.status
      → on_degraded env plan full_path resp s ≡ on_degraded env plan full_path other s
  unfolding on_degraded from_archive
  on_degraded-status resp other s same = ground arith

  both_degraded :
      (resp other : EsiResponse) (leads leads' : Bool) (s : State env)
      → is_degraded resp ≡ true
      → resp.status ≡ other.status
      → (on_answer env plan full_path (resp, leads) s ≡ on_degraded env plan full_path resp s)
        × (on_answer env plan full_path (other, leads') s ≡ on_degraded env plan full_path other s)
  both_degraded resp other leads leads' s degraded same =
      (on_answer_degraded resp leads s degraded, on_answer_degraded other leads' s (ground arith))

  -- For a 420 or 5xx the answer, and the state, depend on the upstream's status alone: neither its
  -- body nor its headers reach the caller, whoever leads, and nothing is written.
  pub degraded-hides-upstream :
      (resp other : EsiResponse) (leads leads' : Bool) (s : State env)
      → is_degraded resp ≡ true
      → resp.status ≡ other.status
      → (on_answer env plan full_path (resp, leads) s
          ≡ on_answer env plan full_path (other, leads') s)
        × ((on_answer env plan full_path (resp, leads) s).1 ≡ s)
  degraded-hides-upstream resp other leads leads' s degraded same =
      let (here, there) = both_degraded resp other leads leads' s degraded same in
      (
        here ∙ on_degraded-status resp other s same ∙ sym there,
        ap (λ (end : Result ProxyResult × State env). end.1) here ∙ on_degraded-state resp s,
      )

  pub cache_set_result :
      (key : Text) (body : Bytes) (ttl : ℕ) (etag : Option Text) (stale_ttl : ℕ) (s : State env)
      → (cache_set env key body ttl etag stale_ttl s).0
        ≡ (if ltb 0 ttl then ok tt else raise redis_error)
  unfolding cache_set
  cache_set_result key body ttl etag stale_ttl s =
      set_body_result env.redis env.lib env.cfg.cache_compress_min_bytes key body ttl etag stale_ttl
        _ s.store

  pub cache_set_negative_result :
      (key : Text) (body : Bytes) (status ttl : ℕ) (s : State env)
      → (cache_set_negative env key body status ttl s).0
        ≡ (if ltb 0 ttl then ok tt else raise redis_error)
  unfolding cache_set_negative
  cache_set_negative_result key body status ttl s =
      set_negative_result env.redis env.lib env.cfg.cache_compress_min_bytes key body status ttl _
        s.store

  on_revalidated-result :
      (stored_etag : Option Text) (resp : EsiResponse) (leads : Bool) (stale_body : Bytes)
      (s : State env)
      → (on_revalidated env plan stored_etag (resp, leads) stale_body s).0 ≡ (
          if leads && revalidated_ttl env plan resp s == 0
          then raise redis_error
          else ok (result (pos 200) stale_body miss))
  unfolding on_revalidated
  on_revalidated-result stored_etag resp false stale_body s = refl
  on_revalidated-result stored_etag resp true stale_body s =
      let ttl = revalidated_ttl env plan resp s in
      let stored =
        cache_set_result plan.cache_key stale_body ttl (etag_or resp.etag stored_etag)
          (stale_ttl_for_payload env.cfg stale_body) s in
      elim (Bool-cases (ltb 0 ttl)) [
        | inl positive ↦ rw (stored, positive) (ground arith)
        | inr zero_ttl ↦ rw (stored, zero_ttl) (ground arith)
      ]

  on_fetched_marked :
      (method : Text) (stored_etag : Option Text) (refetch : Turn (State env) EsiResponse)
      (resp : EsiResponse) (leads : Bool) (s : State env)
      → resp.not_modified ≡ true
      → on_fetched env plan full_path method stored_etag refetch (resp, leads) s
        ≡ on_not_modified env plan full_path method stored_etag refetch (resp, leads) s
  unfolding on_fetched
  on_fetched_marked method stored_etag refetch resp leads s marked = simp marked

  -- For a 304 with a stale copy at hand the caller is given that copy with status 200, unless it
  -- leads and the TTL to store the copy under is 0: then `set` is refused and the request raises.
  pub on_fetched_not_modified :
      (method : Text) (stored_etag : Option Text) (refetch : Turn (State env) EsiResponse)
      (resp : EsiResponse) (leads : Bool) (stale_body : Bytes) (s : State env)
      → resp.not_modified ≡ true
      → cache_get_stale env plan.cache_key s ≡ some stale_body
      → (on_fetched env plan full_path method stored_etag refetch (resp, leads) s).0 ≡ (
          if leads && revalidated_ttl env plan resp s == 0
          then raise redis_error
          else ok (result (pos 200) stale_body miss))
  unfolding on_not_modified
  on_fetched_not_modified method stored_etag refetch resp leads stale_body s marked e =
      rw (on_fetched_marked method stored_etag refetch resp leads s marked)
        (rw (e, on_not_modified) (on_revalidated-result stored_etag resp leads stale_body s))
