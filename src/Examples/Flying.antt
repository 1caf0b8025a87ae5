-- ===== src/Examples/Flying.antt =====
-- Two callers of `coalesce`: caller 0 leads, caller 1 waits for it.
use eve_api_cache.Base.{ℕ, ◌≡◌, refl, true, none, some, [], Text, text}
use eve_api_cache.Base.Dict.{lookup, insert}
use eve_api_cache.Base.Exec.{ok}
use eve_api_cache.Coalesce.Tasks.{
  pending, done, Flights, Reach, start, update, leading, releasing, waiting, shared, lead, join,
  finish, cancel, wake, here, next, outcome, one_leader, waiter-shares-outcome,
}
use eve_api_cache.Coalesce.Cancelled.{is_stranded, waiter-is_stranded}

abbrev key : Text
key = text "k"

abbrev one_leads : Flights ℕ
one_leads = record start {
  inflight = insert key 0 [];
  futures = update (λ i. pending) 0 pending;
  callers = update start.callers 0 (leading key);
}

abbrev one_waits : Flights ℕ
one_waits = record one_leads { callers = update one_leads.callers 1 (waiting 0) }

abbrev one_finished : Flights ℕ
one_finished = record one_waits {
  futures = update one_waits.futures 0 (done (ok 5));
  callers = update one_waits.callers 0 (releasing key (some (ok 5)));
}

abbrev both_finished : Flights ℕ
both_finished = record one_finished { callers = update one_finished.callers 1 (shared 0 (ok 5)) }

abbrev one_cancelled : Flights ℕ
one_cancelled = record one_waits { callers = update one_waits.callers 0 (releasing key none) }

leads-Reach : Reach start one_leads
unfolding lookup
leads-Reach = next here (lead start 0 key refl refl)

waits-Reach : Reach start one_waits
unfolding lookup insert
waits-Reach = next leads-Reach (join one_leads 1 0 key refl refl)

finished-Reach : Reach start both_finished
finished-Reach =
    next (next waits-Reach (finish one_waits 0 key (ok 5) refl))
      (wake one_finished 1 0 (ok 5) refl refl)

cancelled-Reach : Reach start one_cancelled
cancelled-Reach = next waits-Reach (cancel one_waits 0 key refl)

one_leader_example : ◌≡◌ {A = ℕ} 0 0
one_leader_example = one_leader 0 0 key waits-Reach refl refl

waiter-shares-outcome_example : outcome (both_finished.callers 0) ≡ some (ok 5)
waiter-shares-outcome_example = waiter-shares-outcome 1 0 (ok 5) finished-Reach refl

waiter-is_stranded_example : is_stranded 0 (one_cancelled.callers 1) ≡ true
waiter-is_stranded_example = waiter-is_stranded 1 0 cancelled-Reach refl refl here
