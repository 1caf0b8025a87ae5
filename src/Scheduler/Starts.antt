-- ===== src/Scheduler/Starts.antt =====
-- When the jobs of app/scheduler.py start.
use eve_api_cache.Base.{
  ℕ, suc, ◌+◌, ◌-◌, ◌*◌, subst, ◌≤◌, ◌<◌, ◌≡◌, List, [], ◌∷◌, length, Text, All, All-append, arith,
}
use eve_api_cache.Scheduler.{
  SchedulerSettings, ScheduledJob, startup_delay_seconds, n_regions, orders_jobs, prices_job,
  history_jobs, universe_ids, universe_jobs, create_scheduler,
}

-- The job does not start before now, even if the jitter brings its start forward.
abbrev pub StartsLater : SchedulerSettings → ScheduledJob → Type 0
StartsLater settings job = job.jitter * n_regions settings < job.start

module _ (settings : SchedulerSettings) where
  history-StartsLater :
      (i : ℕ) (ids : List ℕ) → All (StartsLater settings) (history_jobs settings i ids)
  unfolding history_jobs
  history-StartsLater i [] = tt
  history-StartsLater i (r ∷ ids) = (omega arith, history-StartsLater (i + 1) ids)

  universe-StartsLater :
      (i : ℕ) (ids : List Text) → All (StartsLater settings) (universe_jobs settings i ids)
  unfolding universe_jobs
  universe-StartsLater i [] = tt
  universe-StartsLater i (id ∷ ids) = (omega arith, universe-StartsLater (i + 1) ids)

  prices-StartsLater : StartsLater settings (prices_job settings)
  unfolding prices_job
  prices-StartsLater = omega arith

  orders-StartsLater :
      (i : ℕ) (ids : List ℕ) → All (StartsLater settings) (orders_jobs settings i ids)
  unfolding orders_jobs
  orders-StartsLater i [] = tt
  orders-StartsLater i (r ∷ ids) = (omega arith, orders-StartsLater (i + 1) ids)

  -- Every job of the scheduler starts after now, even if the jitter brings its start forward.
  pub create_scheduler-StartsLater : All (StartsLater settings) (create_scheduler settings)
  unfolding create_scheduler
  create_scheduler-StartsLater =
      All-append (StartsLater settings) (orders_jobs settings 0 settings.market_region_ids) _
        (orders-StartsLater 0 settings.market_region_ids)
        (
          prices-StartsLater,
          All-append (StartsLater settings) (history_jobs settings 0 settings.market_region_ids) _
              (history-StartsLater 0 settings.market_region_ids)
              (universe-StartsLater 0 universe_ids),
        )

  -- The job starts within one poll window of the start-up delay.
  abbrev pub StartsInWindow : ScheduledJob → Type 0
  StartsInWindow job =
      job.start < (startup_delay_seconds + settings.poll_market_orders_seconds) * n_regions settings

  step_at :
      (i m d poll : ℕ) → 0 < poll → 15 * (i + 1 + m + d) + i * poll < (15 + poll) * (i + 1 + m + d)
  step_at i m d poll h = omega arith

  split_lem : (i m n : ℕ) → i + suc m ≤ n → i + 1 + m + (n - (i + suc m)) ≡ n
  split_lem i m n k = omega arith

  step_lem : (i m n poll : ℕ) → 0 < poll → i + suc m ≤ n → 15 * n + i * poll < (15 + poll) * n
  step_lem i m n poll h k =
      subst (λ k. 15 * k + i * poll < (15 + poll) * k) (split_lem i m n k)
        (step_at i m (n - (i + suc m)) poll h)

  orders-StartsInWindow :
      (i : ℕ) (ids : List ℕ)
      → 0 < settings.poll_market_orders_seconds
      → i + length ids ≤ n_regions settings
      → All StartsInWindow (orders_jobs settings i ids)
  unfolding orders_jobs
  orders-StartsInWindow i [] h k = tt
  orders-StartsInWindow i (r ∷ ids) h k = (
    step_lem i (length ids) (n_regions settings) settings.poll_market_orders_seconds h k,
    orders-StartsInWindow (i + 1) ids h (omega (arith, k)),
  )

  -- With a positive poll interval every region's market orders start less than one interval after
  -- the start-up delay.
  orders_jobs_spread :
      0 < settings.poll_market_orders_seconds
      → All StartsInWindow (orders_jobs settings 0 settings.market_region_ids)
  orders_jobs_spread h = orders-StartsInWindow 0 settings.market_region_ids h (omega arith)
