-- ===== src/Coalesce/Tasks.antt =====
-- All callers of `coalesce` in app/coalesce.py, interleaved. A call has a number; the future that a
-- leading call creates goes by the call's number. The two sections under `_lock` are one step each.
-- A leader that is cancelled leaves by `CancelledError`, which `except Exception` does not catch.
use eve_api_cache.Base.{
  ℕ, ◌≡◌, Option, none, some, [], Text, text_eq_iff, ◌==◌, if◌then◌else◌, arith,
}
use eve_api_cache.Base.Dict.{Dict, lookup, insert, remove, lookup-insert, lookup-remove}
use eve_api_cache.Base.Exec.{Result}

pub data Future (T : Type 0) : Type 0 where
  pending : Future T
  done : Result T → Future T

-- `leading` runs `coro_fn`; `releasing` is in `finally`, before the key is popped, with what the
-- leader leaves with, `none` if it was cancelled; `led` and `shared` have returned.
pub data Caller (T : Type 0) : Type 0 where
  idle abandoned : Caller T
  leading : Text → Caller T
  releasing : Text → Option (Result T) → Caller T
  led : Option (Result T) → Caller T
  waiting : ℕ → Caller T
  shared : ℕ → Result T → Caller T

pub record Flights (T : Type 0) : Type 0 where
  pub inflight : Dict ℕ
  pub futures : ℕ → Future T
  pub callers : ℕ → Caller T

abbrev pub update {ℓ} : {A : Type ℓ} → (ℕ → A) → ℕ → A → ℕ → A
update f i a j = if i == j then a else f j

module _ {T : Type 0} where
  pub data Step : Flights T → Flights T → Type 0 where
    -- the key is not in flight
    lead :
        (s : Flights T) (i : ℕ) (key : Text)
        → s.callers i ≡ idle
        → lookup key s.inflight ≡ none
        → Step s (record s {
          inflight = insert key i s.inflight;
          futures = update s.futures i pending;
          callers = update s.callers i (leading key);
        })
    -- it is
    join :
        (s : Flights T) (i f : ℕ) (key : Text)
        → s.callers i ≡ idle
        → lookup key s.inflight ≡ some f
        → Step s (record s { callers = update s.callers i (waiting f) })
    -- `set_result` or `set_exception`
    finish :
        (s : Flights T) (i : ℕ) (key : Text) (r : Result T)
        → s.callers i ≡ leading key
        → Step s (record s {
          futures = update s.futures i (done r);
          callers = update s.callers i (releasing key (some r));
        })
    cancel :
        (s : Flights T) (i : ℕ) (key : Text)
        → s.callers i ≡ leading key
        → Step s (record s { callers = update s.callers i (releasing key none) })
    -- `_inflight.pop(key, None)`
    release :
        (s : Flights T) (i : ℕ) (key : Text) (o : Option (Result T))
        → s.callers i ≡ releasing key o
        → Step s
            (record s { inflight = remove key s.inflight; callers = update s.callers i (led o) })
    -- `await asyncio.shield(fut)` returns or raises
    wake :
        (s : Flights T) (i f : ℕ) (r : Result T)
        → s.callers i ≡ waiting f
        → s.futures f ≡ done r
        → Step s (record s { callers = update s.callers i (shared f r) })
    -- a waiter is cancelled; `shield` keeps the future
    give_up :
        (s : Flights T) (i f : ℕ)
        → s.callers i ≡ waiting f
        → Step s (record s { callers = update s.callers i abandoned })

  pub data Reach (s : Flights T) : Flights T → Type 0 where
    here : Reach s s
    next : {t u : Flights T} → Reach s t → Step t u → Reach s u

  abbrev pub start : Flights T
  start = record { inflight = []; futures = λ i. pending; callers = λ i. idle }

  -- The key that a caller holds in flight, and what it left its future with.
  abbrev pub held : Caller T → Option Text
  held (leading key) = some key
  held (releasing key o) = some key
  held _ = none

  abbrev pub outcome : Caller T → Option (Result T)
  outcome (releasing key o) = o
  outcome (led o) = o
  outcome _ = none

  record Inv (s : Flights T) : Type 0 where
    pub in_flight :
        (i : ℕ) (key : Text) → held (s.callers i) ≡ some key → lookup key s.inflight ≡ some i
    pub set_by_leader :
        (f : ℕ) (r : Result T) → s.futures f ≡ done r → outcome (s.callers f) ≡ some r
    pub told : (i f : ℕ) (r : Result T) → s.callers i ≡ shared f r → s.futures f ≡ done r

  Step-in_flight :
      {s u : Flights T}
      → Step s u
      → Inv s
      → (i : ℕ) (key : Text) → held (u.callers i) ≡ some key
      → lookup key u.inflight ≡ some i
  Step-in_flight (lead s j k idle_j absent) v i key h =
      rw (lookup-insert k key j s.inflight) (ground (arith, v.in_flight i key, text_eq_iff k key))
  Step-in_flight (join s j f k idle_j found) v i key h = ground (arith, v.in_flight i key)
  Step-in_flight (finish s j k r e) v i key h = ground (arith, v.in_flight i key, v.in_flight j key)
  Step-in_flight (cancel s j k e) v i key h = ground (arith, v.in_flight i key, v.in_flight j key)
  Step-in_flight (release s j k o e) v i key h =
      rw (lookup-remove k key s.inflight)
        (ground (arith, v.in_flight i key, v.in_flight j k, text_eq_iff k key))
  Step-in_flight (wake s j f r e d) v i key h = ground (arith, v.in_flight i key)
  Step-in_flight (give_up s j f e) v i key h = ground (arith, v.in_flight i key)

  Step-set_by_leader :
      {s u : Flights T}
      → Step s u
      → Inv s
      → (f : ℕ) (r : Result T) → u.futures f ≡ done r
      → outcome (u.callers f) ≡ some r
  Step-set_by_leader (lead s j k idle_j absent) v f r h = ground (arith, v.set_by_leader f r)
  Step-set_by_leader (join s j g k idle_j found) v f r h = ground (arith, v.set_by_leader f r)
  Step-set_by_leader (finish s j k x e) v f r h = ground (arith, v.set_by_leader f r)
  Step-set_by_leader (cancel s j k e) v f r h = ground (arith, v.set_by_leader f r)
  Step-set_by_leader (release s j k o e) v f r h = ground (arith, v.set_by_leader f r)
  Step-set_by_leader (wake s j g x e d) v f r h = ground (arith, v.set_by_leader f r)
  Step-set_by_leader (give_up s j g e) v f r h = ground (arith, v.set_by_leader f r)

  Step-told :
      {s u : Flights T}
      → Step s u
      → Inv s
      → (i f : ℕ) (r : Result T) → u.callers i ≡ shared f r
      → u.futures f ≡ done r
  Step-told (lead s j k idle_j absent) v i f r h = ground (arith, v.told i f r, v.set_by_leader f r)
  Step-told (join s j g k idle_j found) v i f r h = ground (arith, v.told i f r)
  Step-told (finish s j k x e) v i f r h = ground (arith, v.told i f r, v.set_by_leader f r)
  Step-told (cancel s j k e) v i f r h = ground (arith, v.told i f r)
  Step-told (release s j k o e) v i f r h = ground (arith, v.told i f r)
  Step-told (wake s j g x e d) v i f r h = ground (arith, v.told i f r)
  Step-told (give_up s j g e) v i f r h = ground (arith, v.told i f r)

  Reach-Inv : {s : Flights T} → Reach start s → Inv s
  Reach-Inv here = record {
    in_flight = λ i key h. cc;
    set_by_leader = λ f r h. cc;
    told = λ i f r h. cc;
  }
  Reach-Inv (next reach step) =
      let v = Reach-Inv reach in
      record {
        in_flight = Step-in_flight step v;
        set_by_leader = Step-set_by_leader step v;
        told = Step-told step v;
      }

  -- However the calls interleave, at most one of them fetches a key at any time.
  pub one_leader :
      {s : Flights T} (i j : ℕ) (key : Text)
      → Reach start s
      → s.callers i ≡ leading key
      → s.callers j ≡ leading key
      → i ≡ j
  one_leader i j key reach a b =
      let v = Reach-Inv reach in ground (arith, v.in_flight i key, v.in_flight j key)

  pub future-outcome :
      {s : Flights T} (f : ℕ) (r : Result T)
      → Reach start s
      → s.futures f ≡ done r
      → outcome (s.callers f) ≡ some r
  future-outcome f r reach e = let v = Reach-Inv reach in v.set_by_leader f r e

  -- However the calls interleave, a caller that waited returns or raises what the leader of its
  -- future did.
  pub waiter-shares-outcome :
      {s : Flights T} (i f : ℕ) (r : Result T)
      → Reach start s
      → s.callers i ≡ shared f r
      → outcome (s.callers f) ≡ some r
  waiter-shares-outcome i f r reach e =
      let v = Reach-Inv reach in v.set_by_leader f r (v.told i f r e)
