-- ===== src/Archive/Live.antt =====
-- app/archive.py as the archive that app/proxy.py and app/collector.py are given.
use eve_api_cache.Base.{
  ℕ, ◌≤◌, ◌≡◌, refl, ap, ◌∙◌, true, false, Option, List, [], ◌∷◌, map, Text, Bytes, text, text_eq,
  text_eq_iff, starts_with, Bool-cases, inl, inr, arith, if◌then◌else◌,
}
use eve_api_cache.Base.Exec.{Exec, ok, raise, database_error}
use eve_api_cache.Base.Keeps.{Keeps, pure-Keeps, bind-Keeps, then-Keeps}
use eve_api_cache.Base.Ints.{ℤ}
use eve_api_cache.Redis.{Redis, value_after}
use eve_api_cache.Cache.Client.{name_key}
use eve_api_cache.Cache.Names.{set_names, name_command}
use eve_api_cache.Proxy.Defs.{Archive}
use eve_api_cache.Archive.Mappings.{Mapping}
use eve_api_cache.Archive.Sessions.{ArchiveEnv, Session, rollback, commit}
use eve_api_cache.Archive.Snapshots.{write_snapshot}
use eve_api_cache.Archive.Reads.{get_latest_payload}
use eve_api_cache.Archive.Names.{
  write_names, write_mappings, on_session, on_store, name_item, name_ttl, of_data,
}

-- Two keys differ if one has a prefix that the other has not.
text_eq-starts_with :
    (prefix k j : Text)
    → starts_with prefix k ≡ true
    → starts_with prefix j ≡ false
    → text_eq k j ≡ false
text_eq-starts_with prefix k j there missing = elim (Bool-cases (text_eq k j)) [
  | inl same ↦
      absurd
        (ground (arith, missing, there, ap (λ x. starts_with prefix x) ((text_eq_iff k j).0 same)))
  | inr other ↦ other
]

module _ (env : ArchiveEnv) (redis : Redis) where
  open env use {pg, json}

  -- The commands of `set_names` leave the other keys alone.
  value_after-names :
      (ds : Text) (items : List (ℤ × (Text × Option Text))) (ttl now t : ℕ) (k : Text)
      (old : Option Bytes)
      → starts_with (text "esi:name:") k ≡ false
      → value_after now t k (map (name_command redis json ds ttl) items) old ≡ old
  value_after-names ds [] ttl now t k old other = refl
  value_after-names ds ((id, (name, category)) ∷ items) ttl now t k old other =
      rw (text_eq-starts_with (text "esi:name:") (name_key ds id) k refl other)
        (value_after-names ds items ttl now t k old other)

  module _ (k : Text) (t : ℕ) (before : Option Bytes) where
    abbrev Reads : Session env × redis.Store → Type 0
    Reads state = redis.get state.1 t k ≡ before

    set_names-Keeps :
        (ds : Text) (items : List (ℤ × (Text × Option Text))) (clock : ℕ)
        → clock ≤ t
        → starts_with (text "esi:name:") k ≡ false
        → Keeps Reads (on_store env redis (set_names redis json ds items name_ttl clock))
    unfolding set_names
    set_names-Keeps ds [] clock later other = record { at = λ s h. h }
    set_names-Keeps ds (item ∷ items) clock later other = record {
      at = λ s h.
          redis.get-execute s.1 (map (name_command redis json ds name_ttl) (item ∷ items)) clock t k
            later
          ∙ (value_after-names ds (item ∷ items) name_ttl clock t k (redis.get s.1 t k) other ∙ h);
    }

    on_session-Keeps :
        {A : Type 0} (m : Exec (Session env) A) → Keeps Reads (on_session env redis m)
    on_session-Keeps m = record { at = λ s h. h }

    write_mappings-Keeps :
        (ds : Text) (mappings : List Mapping) (now clock : ℕ)
        → clock ≤ t
        → starts_with (text "esi:name:") k ≡ false
        → Keeps Reads (write_mappings env redis ds mappings now clock)
    unfolding write_mappings
    write_mappings-Keeps ds [] now clock later other = pure-Keeps tt
    write_mappings-Keeps ds (m ∷ ms) now clock later other =
        bind-Keeps (on_session-Keeps _) (λ rows.
          then-Keeps (set_names-Keeps ds (map name_item rows) clock later other)
            (on_session-Keeps (commit env)))

  -- `write_names` writes no key of the store but those under `esi:name:`.
  pub write_names-get :
      (ds : Text) (payload : Bytes) (now clock t : ℕ) (db : Session env) (store : redis.Store)
      (k : Text)
      → clock ≤ t
      → starts_with (text "esi:name:") k ≡ false
      → redis.get (write_names env redis ds payload now clock (db, store)).1.1 t k
        ≡ redis.get store t k
  unfolding write_names
  write_names-get ds payload now clock t db store k later other =
      (write_mappings-Keeps k t (redis.get store t k) ds (of_data env redis (json.loads payload))
          now clock later other).at
        (db, store) refl

  abbrev pub archive_of : Archive redis
  archive_of = record {
    Db = Session env;
    get_latest_payload = get_latest_payload env;
    write_snapshot =
        λ datasource path query_hash content_hash payload http_status etag expires_at archive_type
            now.
          write_snapshot env
            (record {
              datasource = datasource;
              path = path;
              query_hash = query_hash;
              content_hash = content_hash;
              payload = payload;
              http_status = http_status;
              etag = etag;
              expires_at = expires_at;
              archive_type = archive_type;
            })
            now;
    write_names = write_names env redis;
    rollback = λ s. (if env.up s.sent then ok tt else raise database_error, rollback env s);
    write_names-get = write_names-get;
  }
