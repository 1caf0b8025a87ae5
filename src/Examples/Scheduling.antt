-- ===== src/Examples/Scheduling.antt =====
-- The scheduler with two regions.
use eve_api_cache.Base.{[], ◌∷◌, All}
use eve_api_cache.Scheduler.{SchedulerSettings, create_scheduler}
use eve_api_cache.Scheduler.Starts.{StartsLater, create_scheduler-StartsLater}

abbrev two_regions : SchedulerSettings
two_regions = record {
  market_region_ids = 10000002 ∷ 10000043 ∷ [];
  poll_market_orders_seconds = 300;
  poll_market_prices_seconds = 3600;
  poll_market_history_seconds = 86400;
  poll_universe_seconds = 3600;
}

create_scheduler-StartsLater_example : All (StartsLater two_regions) (create_scheduler two_regions)
create_scheduler-StartsLater_example = create_scheduler-StartsLater two_regions
