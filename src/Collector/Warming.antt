-- ===== src/Collector/Warming.antt =====
-- What app/collector.py leaves in the cache.
use eve_api_cache.Base.{
  ℕ, ◌≤◌, ◌≡◌, refl, sym, subst, ap, ◌∙◌, Bool, true, false, ◌||◌, ◌==◌, List, [], ◌∷◌, any,
  if◌then◌else◌, Text, text_eq, or_default, starts_with, arith,
}
use eve_api_cache.Base.Exec.{Exec, ok}
use eve_api_cache.Cache.Values.{cache_magic}
use eve_api_cache.Cache.Views.{Entry, entry, entry_of_set, entry-set_body, set_body_result}
use eve_api_cache.EsiClient.Fetch.{EsiResponse}
use eve_api_cache.Proxy.Defs.{Env, State}
use eve_api_cache.Proxy.Effects.{now_of, cache_set}
use eve_api_cache.Proxy.Dispatch.{stale_ttl_for_payload}
use eve_api_cache.Collector.{Job, warm, keys_of, write_session, store_fetched}

module _ (env : Env) (datasource : Text) (alias_versions : List Text) where
  open env use {redis, lib, cfg}

  abbrev pub entry_at : Text → ℕ → State env → Entry
  entry_at j t s = entry redis lib cfg.cache_compress_min_bytes j t s.store

  abbrev pub fresh_entry : EsiResponse → State env → ℕ → Entry
  fresh_entry resp s t =
      entry_of_set resp.body (or_default resp.max_age 300) resp.etag
        (stale_ttl_for_payload cfg resp.body) (now_of env s) t

  warm_one : Text → EsiResponse → Exec (State env) (Unit {0})
  warm_one key resp =
      cache_set env key resp.body (or_default resp.max_age 300) resp.etag
        (stale_ttl_for_payload cfg resp.body)

  warm_one-ok : (k : Text) (resp : EsiResponse) (s : State env) → (warm_one k resp s).0 ≡ ok tt
  unfolding warm_one cache_set
  warm_one-ok k resp s =
      set_body_result redis lib cfg.cache_compress_min_bytes k resp.body
        (or_default resp.max_age 300) resp.etag (stale_ttl_for_payload cfg resp.body) (now_of env s)
        s.store
      ∙ ground arith

  warm-step :
      (k : Text) (keys : List Text) (resp : EsiResponse) (s : State env)
      → warm env datasource alias_versions (k ∷ keys) resp s
        ≡ warm env datasource alias_versions keys resp (warm_one k resp s).1
  unfolding warm warm_one
  warm-step k keys resp s = rw (warm_one-ok k resp s) refl

  warm-ok :
      (keys : List Text) (resp : EsiResponse) (s : State env)
      → (warm env datasource alias_versions keys resp s).0 ≡ ok tt
  unfolding warm
  warm-ok [] resp s = refl
  warm-ok (k ∷ keys) resp s = rw (warm-step k keys resp s) (warm-ok keys resp (warm_one k resp s).1)

  merge-if :
      {A : Type 0} (a b : Bool) (x y : A)
      → (if b then x else (if a then x else y)) ≡ (if a || b then x else y)
  merge-if a b x y = ground arith

  warm_one-entry :
      (k j : Text) (resp : EsiResponse) (s : State env) (t : ℕ)
      → now_of env s ≤ t
      → starts_with cache_magic resp.body ≡ false
      → entry_at j t (warm_one k resp s).1
        ≡ (if text_eq k j then fresh_entry resp s t else entry_at j t s)
  unfolding warm_one cache_set
  warm_one-entry k j resp s t later raw =
      entry-set_body redis lib cfg.cache_compress_min_bytes k resp.body
        (or_default resp.max_age 300) resp.etag (stale_ttl_for_payload cfg resp.body) (now_of env s)
        s.store t j later (ground arith) raw

  warm_one-fresh :
      (k : Text) (resp : EsiResponse) (s : State env) (t : ℕ)
      → fresh_entry resp (warm_one k resp s).1 t ≡ fresh_entry resp s t
  unfolding warm_one cache_set
  warm_one-fresh k resp s t = refl

  warm_one-now :
      (k : Text) (resp : EsiResponse) (s : State env)
      → now_of env (warm_one k resp s).1 ≡ now_of env s
  unfolding warm_one cache_set
  warm_one-now k resp s = refl

  warm-entry :
      (keys : List Text) (j : Text) (resp : EsiResponse) (s : State env) (t : ℕ)
      → now_of env s ≤ t
      → starts_with cache_magic resp.body ≡ false
      → entry_at j t (warm env datasource alias_versions keys resp s).1
        ≡ (if any (λ k. text_eq k j) keys then fresh_entry resp s t else entry_at j t s)
  unfolding warm
  warm-entry [] j resp s t later raw = refl
  warm-entry (k ∷ keys) j resp s t later raw = rw (warm-step k keys resp s) (
      warm-entry keys j resp (warm_one k resp s).1 t
        (subst (λ n. n ≤ t) (sym (warm_one-now k resp s)) later) raw
      ∙ rw (warm_one-fresh k resp s t, warm_one-entry k j resp s t later raw)
          (merge-if (text_eq k j) (any (λ k. text_eq k j) keys) (fresh_entry resp s t)
            (entry_at j t s)))

  settled-store :
      (job : Job) (resp : EsiResponse) (s : State env)
      → (write_session env datasource alias_versions job resp s).1.store ≡ s.store
  unfolding write_session
  settled-store job resp s = ground arith

  is_200 : (n : ℕ) → n ≡ 200 → (n == 200) ≡ true
  is_200 n h = ground arith

  store_fetched-good :
      (job : Job) (resp : EsiResponse) (s : State env)
      → resp.status ≡ 200
      → store_fetched env datasource alias_versions job resp s
        ≡ write_session env datasource alias_versions job resp
            (warm env datasource alias_versions
              (keys_of env datasource alias_versions job)
              resp
              s).1
  unfolding store_fetched
  store_fetched-good job resp s good =
      rw (is_200 resp.status good, warm-ok (keys_of env datasource alias_versions job) resp s) refl

  -- A 200 is in the cache from then on under the canonical key and under the key of each alias
  -- version, whatever became of the archive write: body, ETag, TTL and stale copy, with no negative
  -- answer left. The entries of all other keys are as they were. The body must not begin with the
  -- cache's magic prefix.
  pub entry-store_fetched :
      (job : Job) (j : Text) (resp : EsiResponse) (s : State env) (t : ℕ)
      → resp.status ≡ 200
      → now_of env s ≤ t
      → starts_with cache_magic resp.body ≡ false
      → entry_at j t (store_fetched env datasource alias_versions job resp s).1 ≡ (
          if any (λ k. text_eq k j) (keys_of env datasource alias_versions job)
          then fresh_entry resp s t
          else entry_at j t s)
  entry-store_fetched job j resp s t good later raw =
      let keys = keys_of env datasource alias_versions job in
      let warmed = (warm env datasource alias_versions keys resp s).1 in
      rw (store_fetched-good job resp s good) (
        ap (entry redis lib cfg.cache_compress_min_bytes j t) (settled-store job resp warmed)
        ∙ warm-entry keys j resp s t later raw)
