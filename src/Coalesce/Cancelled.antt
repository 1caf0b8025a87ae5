-- ===== src/Coalesce/Cancelled.antt =====
-- `except Exception` in app/coalesce.py does not catch `CancelledError`: the waiters of a leader that
-- was cancelled.
use eve_api_cache.Base.{ℕ, ◌≡◌, ◌≢◌, Bool, true, false, none, ◌==◌, arith}
use eve_api_cache.Base.Exec.{Result}
use eve_api_cache.Coalesce.Tasks.{
  Caller, Flights, Step, Reach, start, done, releasing, led, abandoned, waiting, lead, join, finish,
  cancel, release, wake, give_up, here, next, future-outcome,
}

module _ {T : Type 0} where
  -- The caller led a fetch and was cancelled.
  abbrev pub is_cancelled : Caller T → Bool
  is_cancelled (releasing key none) = true
  is_cancelled (led none) = true
  is_cancelled _ = false

  Step-is_cancelled :
      {s u : Flights T} (f : ℕ)
      → Step s u
      → is_cancelled (s.callers f) ≡ true
      → is_cancelled (u.callers f) ≡ true
  Step-is_cancelled f (lead s j k e absent) c = ground arith
  Step-is_cancelled f (join s j g k e found) c = ground arith
  Step-is_cancelled f (finish s j k x e) c = ground arith
  Step-is_cancelled f (cancel s j k e) c = ground arith
  Step-is_cancelled f (release s j k o e) c = ground arith
  Step-is_cancelled f (wake s j g x e d) c = ground arith
  Step-is_cancelled f (give_up s j g e) c = ground arith

  Reach-is_cancelled :
      {s u : Flights T} (f : ℕ)
      → Reach s u
      → is_cancelled (s.callers f) ≡ true
      → is_cancelled (u.callers f) ≡ true
  Reach-is_cancelled f here c = c
  Reach-is_cancelled f (next reach step) c = Step-is_cancelled f step (Reach-is_cancelled f reach c)

  cancelled-pending :
      {s : Flights T} (f : ℕ) (r : Result T)
      → Reach start s
      → is_cancelled (s.callers f) ≡ true
      → s.futures f ≢ done r
  cancelled-pending {s} f r reach c e = ground (arith, future-outcome f r reach e)

  Reach-trans : {s t u : Flights T} → Reach s t → Reach t u → Reach s u
  Reach-trans a here = a
  Reach-trans a (next b step) = next (Reach-trans a b) step

  -- Still waiting, or cancelled too.
  abbrev pub is_stranded : ℕ → Caller T → Bool
  is_stranded f (waiting g) = f == g
  is_stranded f abandoned = true
  is_stranded f _ = false

  Step-is_stranded :
      {s u : Flights T} (i f : ℕ)
      → Reach start s
      → is_cancelled (s.callers f) ≡ true
      → Step s u
      → is_stranded f (s.callers i) ≡ true
      → is_stranded f (u.callers i) ≡ true
  Step-is_stranded i f reach c (lead s j k e absent) w = ground arith
  Step-is_stranded i f reach c (join s j g k e found) w = ground arith
  Step-is_stranded i f reach c (finish s j k x e) w = ground arith
  Step-is_stranded i f reach c (cancel s j k e) w = ground arith
  Step-is_stranded i f reach c (release s j k o e) w = ground arith
  Step-is_stranded i f reach c (wake s j g x e d) w = ground (arith, cancelled-pending f x reach c)
  Step-is_stranded i f reach c (give_up s j g e) w = ground arith

  -- The future of a leader that was cancelled is never resolved: whatever the callers do from there,
  -- a caller that waits for it waits on, unless it is cancelled too.
  pub waiter-is_stranded :
      {s u : Flights T} (i f : ℕ)
      → Reach start s
      → is_cancelled (s.callers f) ≡ true
      → s.callers i ≡ waiting f
      → Reach s u
      → is_stranded f (u.callers i) ≡ true
  waiter-is_stranded i f reach c w here = ground arith
  waiter-is_stranded i f reach c w (next later step) =
      Step-is_stranded i f (Reach-trans reach later) (Reach-is_cancelled f later c) step
        (waiter-is_stranded i f reach c w later)
