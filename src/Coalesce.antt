-- ===== src/Coalesce.antt =====
-- app/coalesce.py: `coalesce` as one caller sees it, and as the interleaving of all callers of a
-- key (`Coalesce/Tasks`).
pub mod Tasks
pub mod Cancelled
use eve_api_cache.Base.{Bool, true, false}
use eve_api_cache.Base.Exec.{Exec, Result, ok, raise}

-- How a call turns out: it leads, or it waits for the outcome of the leader. While it is suspended
-- other callers change the state, as they please.
pub data Turn (S T : Type 0) : Type 0 where
  lead : (S → S) → Turn S T
  wait : Result T → (S → S) → Turn S T

abbrev pub flagged {ℓ} : {T : Type ℓ} → Bool → Result T → Result (T × Bool)
flagged leads (ok t) = ok (t, leads)
flagged leads (raise e) = raise e

module _ {S T : Type 0} where
  -- The result, and whether this caller ran `fetch`.
  unfoldable pub coalesce : Turn S T → Exec S T → Exec S (T × Bool)
  coalesce (lead meanwhile) fetch s = let (r, s') = fetch s in (flagged true r, meanwhile s')
  coalesce (wait r meanwhile) fetch s = (flagged false r, meanwhile s)
