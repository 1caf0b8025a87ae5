-- ===== src/Collector/Histories.antt =====
-- `collect_market_history_for_region` of app/collector.py. The fetches run one after the other.
use eve_api_cache.Base.{ℕ, ◌+◌, Bool, true, false, List, [], ◌∷◌, Text, if◌then◌else◌}
use eve_api_cache.Base.Exec.{Result, ok, raise}
use eve_api_cache.Base.Ints.{ℤ}
use eve_api_cache.EsiClient.Breaker.{budget_blocked}
use eve_api_cache.Proxy.Defs.{Env, State}
use eve_api_cache.Archive.Sessions.{ArchiveEnv}
use eve_api_cache.Archive.Fallback.{live}
use eve_api_cache.Collector.{fetch_and_store, market_history}
use eve_api_cache.Collector.Types.{discover_type_ids}

-- `r is True`: an exception is no success
abbrev pub success : Result Bool → ℕ
success (ok true) = 1
success (ok false) = 0
success (raise e) = 0

module _ (env : Env) (datasource : Text) (alias_versions : List Text) where
  -- `gather(..., return_exceptions=True)`, and the sum of the successes
  unfoldable pub gather : ℕ → List ℤ → State env → ℕ × State env
  gather region_id [] s = (0, s)
  gather region_id (type_id ∷ type_ids) s =
      let (r, s') =
        fetch_and_store env datasource alias_versions (market_history region_id type_id) s in
      let (successes, s'') = gather region_id type_ids s' in (success r + successes, s'')

module _ (archive : ArchiveEnv) (env : Env) (datasource : Text) (alias_versions : List Text) where
  -- From the type ids on.
  abbrev pub gather_found :
      ℕ → Result (List ℤ) → State (live archive env) → Result ℕ × State (live archive env)
  gather_found region_id (raise e) s = (raise e, s)
  gather_found region_id (ok type_ids) s =
      let (successes, s') =
        gather (live archive env) datasource alias_versions region_id type_ids s in
      (ok successes, s')

  -- `collect_market_history_for_region`
  unfoldable pub collect_market_history_for_region :
      ℕ → State (live archive env) → Result ℕ × State (live archive env)
  collect_market_history_for_region region_id s =
      if budget_blocked (env.net.monotonic s.client.world) s.client.budget
      then (ok 0, s)
      else gather_found region_id (discover_type_ids archive region_id datasource s.db) s
