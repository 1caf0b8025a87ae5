-- ===== src/Examples/Fallbacks.antt =====
-- A run of the proxy over a database of lists.
use eve_api_cache.Base.{◌≡◌, ◌≢◌, refl, true, false, none, [], Bytes, text, arith}
use eve_api_cache.Base.Exec.{ok}
use eve_api_cache.Base.Ints.{pos}
use eve_api_cache.Proxy.Defs.{State, result, archive_fallback}
use eve_api_cache.Proxy.Effects.{cache_get_stale, archive_response}
use eve_api_cache.Proxy.Dispatch.{on_answer}
use eve_api_cache.Cache.Client
use eve_api_cache.Archive.Sessions.{ArchiveEnv, execute, commit}
use eve_api_cache.Archive.Keys.{market_orders_region_id, behind_segment, behind_literal}
use eve_api_cache.Archive.Snapshots.{
  write_snapshot, write_rows, write_timeseries, write_payload_blob, write_parquet,
}
use eve_api_cache.Archive.Fallback.{live, snapshot_of, time_of, on_answer-archive_response}
use eve_api_cache.Examples.{env, client, plan, path, answer_with}
use eve_api_cache.Examples.Database.{archive_env, no_rows}

abbrev aenv : ArchiveEnv
aenv = archive_env (λ n. true)

abbrev before : State (live aenv env)
before = record {
  store = λ t k. none;
  db = record { committed = no_rows; working = no_rows; disk = λ path. none; sent = 0 };
  client = client 0 90;
  events = [];
}

abbrev after : State (live aenv env)
after = record before {
  db = (archive_response (live aenv env) plan path (answer_with 200 false) before).1.db;
}

archived :
    (write_snapshot aenv
      (snapshot_of aenv env plan path (answer_with 200 false))
      (time_of aenv env plan path before)
      before.db).0
    ≡ ok tt
unfolding write_snapshot write_rows write_timeseries write_payload_blob execute commit write_parquet
    market_orders_region_id behind_segment behind_literal
archived = refl

nothing_stale : cache_get_stale (live aenv env) plan.cache_key after ≡ none
unfolding cache_get_stale Client.get_stale
nothing_stale = refl

not_empty : aenv.sha256 [] ≢ aenv.sha256 (answer_with 200 false).body
not_empty e = absurd (ground (arith, e))

on_answer-archive_response_example :
    (body : Bytes) × ((on_answer (live aenv env) plan path (answer_with 502 false, true) after
        ≡ (ok (result (pos 200) body archive_fallback), after))
      × (body ≡ text "[1]"))
on_answer-archive_response_example =
    on_answer-archive_response aenv env plan path (answer_with 200 false) (answer_with 502 false)
      true before after refl refl archived tt tt tt not_empty refl nothing_stale refl refl
