-- ===== src/Cache/Views.antt =====
-- What the cache answers once `set` or `set_negative` has run: for its own key, and for others.
use eve_api_cache.Base.{
  ℕ, ◌+◌, ◌≤◌, ◌<◌, ◌≡◌, ◌∙◌, false, Option, none, some, ltb, if◌then◌else◌, arith, Text, Bytes,
  text_eq, starts_with, Option-cases, inl, inr,
}
use eve_api_cache.Base.Exec.{ok, raise, redis_error}
use eve_api_cache.Base.Ints.{ℤ, pos, str_nat, int_of-str_nat}
use eve_api_cache.Redis.{Redis, value_after}
use eve_api_cache.Cache.Values.{Compressor, cache_magic, stored_value, decode_value-stored_value}
use eve_api_cache.Cache.Client.{
  body_key, stale_key, etag_key, ttl_key, neg_body_key, neg_status_key, non_empty, get,
  set_commands, negative_commands, set_body, stale_commands, etag_commands, get_ttl, set_negative,
  get_negative, get_stale, get_etag,
}

-- An entry that lives for `life` seconds from `now`, read at time `t`.
abbrev pub living {ℓ} : {A : Type ℓ} → ℕ → ℕ → ℕ → Option A → Option A
living now life t o = if ltb t (now + life) then o else none

abbrev printed : Option Bytes → ℕ → Option Bytes
printed none ttl = none
printed (some etag) ttl = some (str_nat ttl)

abbrev pub life_with : Option Bytes → ℕ → Option ℤ
life_with none ttl = none
life_with (some etag) ttl = some (pos ttl)

-- The six keys of Redis after the pipeline of `set`, for its own key and for any other.
module _ (key j : Text) (stored : Bytes) (ttl stale_ttl now t : ℕ) (old : Option Bytes) where
  abbrev after_set : Option Bytes → Text → Option Bytes
  after_set etag k = value_after now t k (set_commands key stored ttl etag stale_ttl) old

  pub body-set :
      (etag : Option Bytes)
      → 0 < ttl
      → after_set etag (body_key j)
        ≡ (if text_eq key j then living now ttl t (some stored) else old)
  unfolding set_commands
  body-set none h = ground arith
  body-set (some tag) h = ground arith

  pub stale-set :
      (etag : Option Bytes)
      → after_set etag (stale_key j) ≡ (
          if text_eq key j
          then (if ltb 0 stale_ttl then living now (ttl + stale_ttl) t (some stored) else none)
          else old)
  unfolding set_commands
  stale-set none = ground arith
  stale-set (some tag) = ground arith

  pub etag-set :
      (etag : Option Bytes)
      → after_set etag (etag_key j) ≡ (if text_eq key j then living now (ttl + 60) t etag else old)
  unfolding set_commands
  etag-set none = ground arith
  etag-set (some tag) = ground arith

  pub ttl-set :
      (etag : Option Bytes)
      → after_set etag (ttl_key j)
        ≡ (if text_eq key j then living now (ttl + 60) t (printed etag ttl) else old)
  unfolding set_commands
  ttl-set none = ground arith
  ttl-set (some tag) = ground arith

  pub neg_body-set :
      (etag : Option Bytes)
      → after_set etag (neg_body_key j) ≡ (if text_eq key j then none else old)
  unfolding set_commands
  neg_body-set none = ground arith
  neg_body-set (some tag) = ground arith

  pub neg_status-set :
      (etag : Option Bytes)
      → after_set etag (neg_status_key j) ≡ (if text_eq key j then none else old)
  unfolding set_commands
  neg_status-set none = ground arith
  neg_status-set (some tag) = ground arith

-- All that the cache holds for a key at a time.
pub record Entry : Type 0 where
  pub fresh : Option (Bytes × Option Bytes)
  pub stale : Option Bytes
  pub etag : Option Bytes
  pub last_ttl : Option ℤ
  pub negative : Option (Bytes × ℤ)

-- What `set` promises for its key.
abbrev pub entry_of_set : Bytes → ℕ → Option Bytes → ℕ → ℕ → ℕ → Entry
entry_of_set body ttl etag stale_ttl now t = record {
  fresh = living now ttl t (some (body, non_empty etag));
  stale = if ltb 0 stale_ttl then living now (ttl + stale_ttl) t (some body) else none;
  etag = living now (ttl + 60) t (non_empty etag);
  last_ttl = living now (ttl + 60) t (life_with (non_empty etag) ttl);
  negative = none;
}

module _ (r : Redis) (lib : Compressor) (m : ℕ) where
  open r use {Store, get as redis_get, execute, get-execute, execute_result}

  unfoldable pub entry : Text → ℕ → Store → Entry
  entry key t s = record {
    fresh = get r lib m key t s;
    stale = get_stale r lib m key t s;
    etag = get_etag r lib m key t s;
    last_ttl = get_ttl r lib m key t s;
    negative = get_negative r lib m key t s;
  }

  module _ (key : Text) (body : Bytes) (ttl : ℕ) (etag : Option Bytes) (stale_ttl now : ℕ)
      (s : Store) where
    abbrev pub after : Store
    after = (set_body r lib m key body ttl etag stale_ttl now s).1

    stored : Bytes
    stored = stored_value lib m body

    abbrev tag : Option Bytes
    tag = non_empty etag

    module _ (t : ℕ) (j : Text) (le : now ≤ t) where
      body_after :
          0 < ttl
          → redis_get after t (body_key j)
            ≡ (if text_eq key j then living now ttl t (some stored) else redis_get s t (body_key j))
      unfolding set_body stored
      body_after h =
          get-execute s _ now t (body_key j) le ∙ body-set key j stored ttl stale_ttl now t _ tag h

      stale_after : redis_get after t (stale_key j) ≡ (
          if text_eq key j
          then (if ltb 0 stale_ttl then living now (ttl + stale_ttl) t (some stored) else none)
          else redis_get s t (stale_key j))
      unfolding set_body stored
      stale_after =
          get-execute s _ now t (stale_key j) le ∙ stale-set key j stored ttl stale_ttl now t _ tag

      etag_after :
          redis_get after t (etag_key j)
          ≡ (if text_eq key j then living now (ttl + 60) t tag else redis_get s t (etag_key j))
      unfolding set_body stored
      etag_after =
          get-execute s _ now t (etag_key j) le ∙ etag-set key j stored ttl stale_ttl now t _ tag

      ttl_after : redis_get after t (ttl_key j) ≡ (
          if text_eq key j
          then living now (ttl + 60) t (printed tag ttl)
          else redis_get s t (ttl_key j))
      unfolding set_body stored
      ttl_after =
          get-execute s _ now t (ttl_key j) le ∙ ttl-set key j stored ttl stale_ttl now t _ tag

      neg_body_after :
          redis_get after t (neg_body_key j)
          ≡ (if text_eq key j then none else redis_get s t (neg_body_key j))
      unfolding set_body stored
      neg_body_after =
          get-execute s _ now t (neg_body_key j) le
          ∙ neg_body-set key j stored ttl stale_ttl now t _ tag

      neg_status_after :
          redis_get after t (neg_status_key j)
          ≡ (if text_eq key j then none else redis_get s t (neg_status_key j))
      unfolding set_body stored
      neg_status_after =
          get-execute s _ now t (neg_status_key j) le
          ∙ neg_status-set key j stored ttl stale_ttl now t _ tag

      pub get-set_body :
          0 < ttl
          → starts_with cache_magic body ≡ false
          → get r lib m j t after
            ≡ (if text_eq key j then living now ttl t (some (body, tag)) else get r lib m j t s)
      unfolding get stored
      get-set_body h raw =
          ground (arith, body_after h, etag_after, decode_value-stored_value lib m body raw)

      get_stale-set_body :
          starts_with cache_magic body ≡ false
          → get_stale r lib m j t after ≡ (
              if text_eq key j
              then (if ltb 0 stale_ttl then living now (ttl + stale_ttl) t (some body) else none)
              else get_stale r lib m j t s)
      unfolding get_stale stored
      get_stale-set_body raw = ground (arith, stale_after, decode_value-stored_value lib m body raw)

      get_etag-set_body :
          get_etag r lib m j t after
          ≡ (if text_eq key j then living now (ttl + 60) t tag else get_etag r lib m j t s)
      unfolding get_etag
      get_etag-set_body = ground (arith, etag_after)

      get_ttl-set_body : get_ttl r lib m j t after ≡ (
          if text_eq key j
          then living now (ttl + 60) t (life_with tag ttl)
          else get_ttl r lib m j t s)
      unfolding get_ttl
      get_ttl-set_body = ground (arith, ttl_after, int_of-str_nat ttl)

      get_negative-set_body :
          get_negative r lib m j t after
          ≡ (if text_eq key j then none else get_negative r lib m j t s)
      unfolding get_negative
      get_negative-set_body = ground (arith, neg_body_after, neg_status_after)

      -- After `set` with a positive TTL at time `now`, and at every time from then on: the entry of
      -- the key holds the body and ETag for `ttl` seconds, the stale copy for the stale window
      -- longer (none if that is 0), the ETag and TTL for 60 seconds longer and no negative answer;
      -- the entry of any other key is as it was. The body must not begin with the magic prefix.
      pub entry-set_body :
          0 < ttl
          → starts_with cache_magic body ≡ false
          → entry j t (set_body r lib m key body ttl etag stale_ttl now s).1
            ≡ (if text_eq key j then entry_of_set body ttl etag stale_ttl now t else entry j t s)
      unfolding entry
      entry-set_body h raw = ground (
        arith,
        get-set_body h raw,
        get_stale-set_body raw,
        get_etag-set_body,
        get_ttl-set_body,
        get_negative-set_body,
      )

    -- `set` returns exactly when its TTL is positive, and raises otherwise: Redis refuses an expiry
    -- time of 0.
    pub set_body_result :
        (set_body r lib m key body ttl etag stale_ttl now s).0
        ≡ (if ltb 0 ttl then ok tt else raise redis_error)
    unfolding set_body set_commands stale_commands etag_commands
    set_body_result = elim (Option-cases (non_empty etag)) [
      | inl e ↦ rw (execute_result, e) (ground arith)
      | inr (x, e) ↦ rw (execute_result, e) (ground arith)
    ]

  module _ (key : Text) (body : Bytes) (status ttl now : ℕ) (s : Store) where
    abbrev pub noted : Store
    noted = (set_negative r lib m key body status ttl now s).1

    module _ (t : ℕ) (j : Text) (le : now ≤ t) where
      noted_value :
          (k : Text)
          → redis_get noted t k
            ≡ value_after now t k (negative_commands key body status ttl) (redis_get s t k)
      unfolding set_negative
      noted_value k = get-execute s _ now t k le

      pub get-set_negative : get r lib m j t noted ≡ get r lib m j t s
      unfolding get
      get-set_negative = ground (arith, noted_value (body_key j), noted_value (etag_key j))

      pub get_negative-set_negative :
          0 < ttl
          → get_negative r lib m j t noted ≡ (
              if text_eq key j
              then living now ttl t (some (body, pos status))
              else get_negative r lib m j t s)
      unfolding get_negative
      get_negative-set_negative h = ground (
        arith,
        noted_value (neg_body_key j),
        noted_value (neg_status_key j),
        int_of-str_nat status,
      )

      -- After `set_negative` with a positive TTL at time `now`, and at every time from then on: the
      -- entry of the key answers with the body and status for `ttl` seconds and has no negative
      -- answer behind them, the rest of it is as it was, and so is the entry of any other key.
      entry-set_negative :
          0 < ttl
          → entry j t (set_negative r lib m key body status ttl now s).1 ≡ (
              if text_eq key j
              then record (entry j t s) { negative = living now ttl t (some (body, pos status)) }
              else entry j t s)
      unfolding entry get get_stale get_etag get_ttl get_negative
      entry-set_negative h = ground (
        arith,
        noted_value (body_key j),
        noted_value (stale_key j),
        noted_value (etag_key j),
        noted_value (ttl_key j),
        noted_value (neg_body_key j),
        noted_value (neg_status_key j),
        int_of-str_nat status,
      )

    -- `set_negative` too returns exactly when its TTL is positive.
    pub set_negative_result :
        (set_negative r lib m key body status ttl now s).0
        ≡ (if ltb 0 ttl then ok tt else raise redis_error)
    unfolding set_negative
    set_negative_result = rw execute_result (ground arith)
