-- ===== src/Scheduler.antt =====
-- app/scheduler.py: the table of jobs that `create_scheduler` adds, one run of a job under its advisory
-- lock, and the listener. A start offset is counted in parts of a second, as many as there are
-- regions, so that the step between the regions' orders, a quotient, is a whole number of parts. The
-- functions that the jobs call are those of app/collector.py and are left out of the table.
pub mod Status
pub mod Starts
use eve_api_cache.Base.{
  ℕ, ◌+◌, ◌*◌, ◌%◌, ◌^◌, max, Bool, true, false, Option, none, some, List, [], ◌∷◌, ◌++◌, length,
  Text, text,
}
use eve_api_cache.Base.Exec.{Exec, Result, ok, raise}
use eve_api_cache.Base.Ints.{str_nat}
use eve_api_cache.Events.{Event, inc_counter}

-- The settings of the scheduler.
pub record SchedulerSettings : Type 0 where
  pub market_region_ids : List ℕ
  pub poll_market_orders_seconds : ℕ
  pub poll_market_prices_seconds : ℕ
  pub poll_market_history_seconds : ℕ
  pub poll_universe_seconds : ℕ

-- `scheduler.add_job`
pub record ScheduledJob : Type 0 where
  pub id : Text
  pub seconds : ℕ
  pub start : ℕ
  pub jitter : ℕ
  pub misfire_grace_time : ℕ

abbrev pub startup_delay_seconds : ℕ
startup_delay_seconds = 15

abbrev pub jitter_seconds : ℕ
jitter_seconds = 10

abbrev pub prices_start_seconds : ℕ
prices_start_seconds = 20

abbrev pub universe_start_seconds : ℕ
universe_start_seconds = 30

abbrev pub universe_stagger_seconds : ℕ
universe_stagger_seconds = 60

abbrev pub history_start_seconds : ℕ
history_start_seconds = 120

abbrev pub history_stagger_seconds : ℕ
history_stagger_seconds = 600

-- `n_regions`, the number of parts of a second
abbrev pub n_regions : SchedulerSettings → ℕ
n_regions settings = max (length settings.market_region_ids) 1

abbrev pub job : Text → ℕ → ℕ → ℕ → ScheduledJob
job id seconds start misfire_grace_time = record {
  id = id;
  seconds = seconds;
  start = start;
  jitter = jitter_seconds;
  misfire_grace_time = misfire_grace_time;
}

-- The market orders of the regions, from the region of index `i` on.
unfoldable pub orders_jobs : SchedulerSettings → ℕ → List ℕ → List ScheduledJob
orders_jobs settings i [] = []
orders_jobs settings i (region_id ∷ region_ids) =
    job (text "market_orders_" ++ str_nat region_id) settings.poll_market_orders_seconds
      (startup_delay_seconds * n_regions settings + i * settings.poll_market_orders_seconds) 60
    ∷ orders_jobs settings (i + 1) region_ids

unfoldable pub prices_job : SchedulerSettings → ScheduledJob
prices_job settings =
    job (text "market_prices") settings.poll_market_prices_seconds
      (prices_start_seconds * n_regions settings) 120

-- The market history of the regions, from the region of index `i` on.
unfoldable pub history_jobs : SchedulerSettings → ℕ → List ℕ → List ScheduledJob
history_jobs settings i [] = []
history_jobs settings i (region_id ∷ region_ids) =
    job (text "market_history_" ++ str_nat region_id) settings.poll_market_history_seconds
      ((history_start_seconds + i * history_stagger_seconds) * n_regions settings) 3600
    ∷ history_jobs settings (i + 1) region_ids

abbrev pub universe_ids : List Text
universe_ids =
    text "system_jumps"
    ∷ text "system_kills"
    ∷ text "sovereignty_map"
    ∷ text "sovereignty_structures"
    ∷ text "incursions"
    ∷ text "industry_facilities"
    ∷ []

-- The universe jobs, from the one of index `i` on.
unfoldable pub universe_jobs : SchedulerSettings → ℕ → List Text → List ScheduledJob
universe_jobs settings i [] = []
universe_jobs settings i (id ∷ ids) =
    job id settings.poll_universe_seconds
      ((universe_start_seconds + i * universe_stagger_seconds) * n_regions settings) 120
    ∷ universe_jobs settings (i + 1) ids

-- `create_scheduler`
unfoldable pub create_scheduler : SchedulerSettings → List ScheduledJob
create_scheduler settings =
    orders_jobs settings 0 settings.market_region_ids
    ++ (prices_job settings
        ∷ (history_jobs settings 0 settings.market_region_ids
            ++ universe_jobs settings 0 universe_ids))

-- `_record_job_event`: the codes of APScheduler, and what the run is counted as
pub data JobEvent : Type 0 where
  job_error job_missed job_executed : JobEvent

unfoldable pub record_job_event : JobEvent → Text → Event
record_job_event job_error id =
    inc_counter (text "collector_job_runs_total")
      ((text "job", id) ∷ (text "result", text "error") ∷ [])
record_job_event job_missed id =
    inc_counter (text "collector_job_runs_total")
      ((text "job", id) ∷ (text "result", text "missed") ∷ [])
record_job_event job_executed id =
    inc_counter (text "collector_job_runs_total")
      ((text "job", id) ∷ (text "result", text "success") ∷ [])

-- `_advisory_lock_id`, for the digest of 8 bytes as a number; the mask keeps its low 63 bits
unfoldable pub advisory_lock_id : (Text → ℕ) → Text → ℕ
advisory_lock_id blake2b job_id = blake2b (text "eve-api-cache:" ++ job_id) % 2 ^ 63

module _ {S : Type 0} (try_lock : ℕ → Exec S Bool) (unlock : ℕ → Exec S (Unit {0})) where
  -- The `finally`: an error of the unlock is logged.
  abbrev pub release_lock : {A : Type 0} → ℕ → Result A × S → Result (Option A) × S
  release_lock lock_id (ok a, s) = (ok (some a), (unlock lock_id s).1)
  release_lock lock_id (raise e, s) = (raise e, (unlock lock_id s).1)

  abbrev run_locked : {A : Type 0} → ℕ → Exec S A → Result Bool × S → Result (Option A) × S
  run_locked lock_id fn (ok true, s) = release_lock lock_id (fn s)
  run_locked lock_id fn (ok false, s) = (ok none, s)
  run_locked lock_id fn (raise e, s) = (raise e, s)

  -- `_run_singleton_job`: `none` where the lock is held elsewhere
  unfoldable pub run_singleton_job : {A : Type 0} → (Text → ℕ) → Text → Exec S A → Exec S (Option A)
  run_singleton_job blake2b job_id fn s =
      let lock_id = advisory_lock_id blake2b job_id in run_locked lock_id fn (try_lock lock_id s)
