-- ===== src/Scheduler/Status.antt =====
-- `scheduler_status` of app/scheduler.py. A job is what APScheduler shows of it, and `isoformat` is
-- the text of a `datetime`.
use eve_api_cache.Base.{ℕ, Option, none, some, List, map, Text, text}
use eve_api_cache.Json.{Value, null, str, object, member, end}

pub record LibraryJob : Type 0 where
  pub id : Text
  pub name : Text
  pub next_run_time : Option ℕ

module _ (isoformat : ℕ → Text) where
  -- `next_run.isoformat() if next_run else None`
  abbrev pub next_run : Option ℕ → Value
  next_run none = null
  next_run (some time) = str (isoformat time)

  abbrev pub job_status : LibraryJob → Value
  job_status job = object (
      member (text "id") (str job.id) (
        member (text "name") (str job.name)
          (member (text "next_run") (next_run job.next_run_time) end)))

  abbrev pub scheduler_status : List LibraryJob → List Value
  scheduler_status = map job_status
