-- ===== src/Proxy/Caching.antt =====
-- A second request for the same key, served by the cache.
use eve_api_cache.Base.{
  ℕ, ◌+◌, ◌≡◌, ◌<◌, ◌≤◌, refl, ap, sym, subst, ◌∙◌, true, false, not, ◌&&◌, none, some, Text, text,
  text_eq_refl, starts_with, arith, Bool-cases, inl, inr, or_default,
}
use eve_api_cache.Base.Exec.{pure, Result, ok, raise, continue}
use eve_api_cache.Base.Ints.{pos}
use eve_api_cache.Cache.Client
use eve_api_cache.Cache.Client.{non_empty, body_key, etag_key}
use eve_api_cache.Cache.Values.{cache_magic}
use eve_api_cache.Cache.Views.{get-set_body, get-set_negative, get_negative-set_negative}
use eve_api_cache.EsiClient.Fetch.{EsiResponse}
use eve_api_cache.EsiClient.State.{Client as EsiClient}
use eve_api_cache.Coalesce.{Turn}
use eve_api_cache.Proxy.Defs.{Env, State, ProxyResult, result, hit}
use eve_api_cache.Proxy.Admission.{Plan}
use eve_api_cache.Proxy.Effects.{
  is_archived, write_snapshot_step, write_names_step, now_of, cache_get, cache_get_negative,
  cache_set, cache_set_negative, archive_response, write_archive, settle_archive, count_write, emit,
}
use eve_api_cache.Proxy.Answers.{cache_set_result, cache_set_negative_result}
use eve_api_cache.Proxy.Dispatch.{
  on_ok, store_response, on_client_error, serve, stale_ttl_for_payload, is_negative, negative_ttl,
}

module _ (env : Env) (plan : Plan) (full_path : Text) where
  open env use {redis, lib, cfg}

  abbrev size : ℕ
  size = cfg.cache_compress_min_bytes

  -- The keys of the cache are not written by the archive.
  abbrev Same : Text → State env → State env → Type 0
  Same k s s' = (t : ℕ) → now_of env s ≤ t → redis.get s'.store t k ≡ redis.get s.store t k

  settle_archive-store :
      (end : Result (Unit {0}) × State env) → (settle_archive env plan end).1.store ≡ end.1.store
  unfolding settle_archive
  settle_archive-store (ok done, s) = refl
  settle_archive-store (raise e, s) = rolled_back (env.archive.rollback s.db)
    where
      rolled_back :
          (r : Result (Unit {0}) × env.archive.Db)
          → (continue r.0
              (λ done. emit env (count_write env plan (text "error")))
              (record s { db = r.1 })).1.store
            ≡ s.store
      rolled_back (ok done, db) = refl
      rolled_back (raise x, db) = refl

  snapshot-store :
      (resp : EsiResponse) (s : State env)
      → (write_snapshot_step env plan full_path resp s).1.store ≡ s.store
  unfolding write_snapshot_step
  snapshot-store resp s = ground arith

  snapshot-client :
      (resp : EsiResponse) (s : State env)
      → (write_snapshot_step env plan full_path resp s).1.client ≡ s.client
  unfolding write_snapshot_step
  snapshot-client resp s = ground arith

  names-Same :
      (resp : EsiResponse) (s : State env) (k : Text)
      → starts_with (text "esi:name:") k ≡ false
      → Same k s (write_names_step env plan resp s).1
  unfolding write_names_step
  names-Same resp s k h t later = elim (Bool-cases plan.spec.extract_names) [
    | inl names ↦ rw names (
        env.archive.write_names-get plan.datasource resp.body _ (now_of env s) t s.db s.store k
          later h)
    | inr none_wanted ↦ rw none_wanted
  ]

  write_archive-Same :
      (resp : EsiResponse) (s : State env) (k : Text)
      → starts_with (text "esi:name:") k ≡ false
      → Same k s (write_archive env plan full_path resp s).1
  unfolding write_archive
  write_archive-Same resp s k h t later =
      go (write_snapshot_step env plan full_path resp s) (snapshot-store resp s)
        (snapshot-client resp s)
    where
      go :
          (end : Result (Unit {0}) × State env)
          → end.1.store ≡ s.store
          → end.1.client ≡ s.client
          → redis.get (continue end.0 (λ done. write_names_step env plan resp) end.1).1.store t k
            ≡ redis.get s.store t k
      go (ok done, s') e c =
          names-Same resp s' k h t
            (subst (λ (x : EsiClient env.net.World). env.clock x.world ≤ t) (sym c) later)
          ∙ ap (λ (x : redis.Store). redis.get x t k) e
      go (raise x, s') e c = ap (λ (y : redis.Store). redis.get y t k) e

  archive_response-Same :
      (resp : EsiResponse) (s : State env) (k : Text)
      → starts_with (text "esi:name:") k ≡ false
      → Same k s (archive_response env plan full_path resp s).1
  unfolding archive_response
  archive_response-Same resp s k h t later =
      elim (Bool-cases (not (is_archived plan.spec.archive_type) && not plan.spec.extract_names)) [
        | inl nothing ↦ rw nothing
        | inr some_write ↦
            rw (some_write, settle_archive-store (write_archive env plan full_path resp s))
              (write_archive-Same resp s k h t later)
      ]

  -- The state once the leader has stored a response in the cache.
  stored : EsiResponse → State env → State env
  stored resp s =
      (cache_set env plan.cache_key resp.body (or_default resp.max_age 300) resp.etag
        (stale_ttl_for_payload cfg resp.body) s).1

  stored_now :
      (resp : EsiResponse) (s : State env) (t : ℕ)
      → now_of env s ≤ t
      → now_of env (stored resp s) ≤ t
  unfolding stored cache_set
  stored_now resp s t later = later

  on_ok-store :
      (resp : EsiResponse) (s : State env)
      → (on_ok env plan full_path resp true s).1.store
        ≡ (archive_response env plan full_path resp (stored resp s)).1.store
  unfolding on_ok store_response stored
  on_ok-store resp s =
      let returned : (cache_set env plan.cache_key resp.body (or_default resp.max_age 300) resp.etag
            (stale_ttl_for_payload env.cfg resp.body) s).0
          ≡ ok tt =
        cache_set_result env plan full_path plan.cache_key resp.body (or_default resp.max_age 300)
          resp.etag _ s
        ∙ ground arith in
      rw returned (behind _ (archive_response env plan full_path resp (stored resp s)))
    where
      behind :
          (a : ProxyResult) (end : Result (Unit {0}) × State env)
          → (continue end.0 (λ done. pure a) end.1).1.store ≡ end.1.store
      behind a (ok done, t) = refl
      behind a (raise e, t) = refl

  -- A read of the positive cache depends on two keys.
  get-Same :
      (key : Text) (now : ℕ) (a b : redis.Store)
      → redis.get a now (body_key key) ≡ redis.get b now (body_key key)
      → redis.get a now (etag_key key) ≡ redis.get b now (etag_key key)
      → Client.get redis lib size key now a ≡ Client.get redis lib size key now b
  unfolding Client.get
  get-Same key now a b body etag = rw (body, etag)

  stored_entry :
      (resp : EsiResponse) (s : State env) (t : ℕ)
      → starts_with cache_magic resp.body ≡ false
      → now_of env s ≤ t
      → t < now_of env s + or_default resp.max_age 300
      → Client.get redis lib size plan.cache_key t (stored resp s).store
        ≡ some (resp.body, non_empty resp.etag)
  unfolding stored cache_set
  stored_entry resp s t raw later within =
      let read =
        get-set_body redis lib size plan.cache_key resp.body (or_default resp.max_age 300) resp.etag
          (stale_ttl_for_payload cfg resp.body) (now_of env s) s.store t plan.cache_key later
          (ground arith) raw in
      read ∙ rw (text_eq_refl plan.cache_key) (ground arith)

  cached :
      (resp : EsiResponse) (s t : State env)
      → starts_with cache_magic resp.body ≡ false
      → t.store ≡ (on_ok env plan full_path resp true s).1.store
      → now_of env s ≤ now_of env t
      → now_of env t < now_of env s + or_default resp.max_age 300
      → cache_get env plan.cache_key t ≡ some (resp.body, non_empty resp.etag)
  unfolding cache_get
  cached resp s t raw same later within =
      ap (Client.get redis lib size plan.cache_key (now_of env t)) (same ∙ on_ok-store resp s)
      ∙ get-Same plan.cache_key (now_of env t) _ _
          (archive_response-Same resp (stored resp s) (body_key plan.cache_key) refl (now_of env t)
            (stored_now resp s _ later))
          (archive_response-Same resp (stored resp s) (etag_key plan.cache_key) refl (now_of env t)
            (stored_now resp s _ later))
      ∙ stored_entry resp s (now_of env t) raw later within

  on_client_error-store :
      (resp : EsiResponse) (s : State env)
      → is_negative env resp ≡ true
      → (on_client_error env plan resp s).1.store
        ≡ (Client.set_negative redis lib size plan.cache_key resp.body resp.status
            (negative_ttl env resp)
            (now_of env s)
            s.store).1
  unfolding on_client_error
  on_client_error-store resp s negative =
      let returned : (cache_set_negative env plan.cache_key resp.body resp.status
            (negative_ttl env resp) s).0
          ≡ ok tt =
        cache_set_negative_result env plan full_path plan.cache_key resp.body resp.status
          (negative_ttl env resp) s
        ∙ ground arith in
      rw (negative, returned) (unfold cache_set_negative in refl)

  missing :
      (resp : EsiResponse) (s t : State env)
      → is_negative env resp ≡ true
      → t.store ≡ (on_client_error env plan resp s).1.store
      → Client.get redis lib size plan.cache_key (now_of env t) s.store ≡ none
      → now_of env s ≤ now_of env t
      → cache_get env plan.cache_key t ≡ none
  unfolding cache_get
  missing resp s t negative same fresh later =
      ap (Client.get redis lib size plan.cache_key (now_of env t))
        (same ∙ on_client_error-store resp s negative)
      ∙ get-set_negative redis lib size plan.cache_key resp.body resp.status (negative_ttl env resp)
          (now_of env s) s.store (now_of env t) plan.cache_key later
      ∙ fresh

  remembered :
      (resp : EsiResponse) (s t : State env)
      → is_negative env resp ≡ true
      → t.store ≡ (on_client_error env plan resp s).1.store
      → now_of env s ≤ now_of env t
      → now_of env t < now_of env s + negative_ttl env resp
      → cache_get_negative env plan.cache_key t ≡ some (resp.body, pos resp.status)
  unfolding cache_get_negative
  remembered resp s t negative same later within =
      ap (Client.get_negative redis lib size plan.cache_key (now_of env t))
        (same ∙ on_client_error-store resp s negative)
      ∙ get_negative-set_negative redis lib size plan.cache_key resp.body resp.status
          (negative_ttl env resp) (now_of env s) s.store (now_of env t) plan.cache_key later
          (ground arith)
      ∙ rw (text_eq_refl plan.cache_key) (ground arith)

  -- Within its TTL, and while nothing else writes the store, the body of a 200 that the leader stored
  -- is what a later request for the same key is answered with, with no call of the upstream and no
  -- change of state, whatever the archive did and whoever else may be waiting. The body must not
  -- begin with the cache's magic prefix.
  pub serve-on_ok :
      (method : Text) (turn refetch : Turn (State env) EsiResponse) (resp : EsiResponse)
      (s t : State env)
      → starts_with cache_magic resp.body ≡ false
      → t.store ≡ (on_ok env plan full_path resp true s).1.store
      → now_of env s ≤ now_of env t
      → now_of env t < now_of env s + or_default resp.max_age 300
      → serve env plan full_path method turn refetch t ≡ (ok (result (pos 200) resp.body hit), t)
  unfolding serve
  serve-on_ok method turn refetch resp s t raw same later within =
      rw (cached resp s t raw same later within, serve) refl

  -- A 4xx other than 420 and 429 that the upstream gave, with a TTL above 0, is what a later request
  -- for the same key is answered with, within that TTL and unless a body has come into the cache:
  -- the same status and body, with no call of the upstream and no change of state.
  pub serve-on_client_error :
      (method : Text) (turn refetch : Turn (State env) EsiResponse) (resp : EsiResponse)
      (s t : State env)
      → is_negative env resp ≡ true
      → t.store ≡ (on_client_error env plan resp s).1.store
      → Client.get redis lib size plan.cache_key (now_of env t) s.store ≡ none
      → now_of env s ≤ now_of env t
      → now_of env t < now_of env s + negative_ttl env resp
      → serve env plan full_path method turn refetch t
        ≡ (ok (result (pos resp.status) resp.body hit), t)
  unfolding serve
  serve-on_client_error method turn refetch resp s t negative same fresh later within =
      rw (missing resp s t negative same fresh later, serve)
        (rw (remembered resp s t negative same later within, serve) refl)
