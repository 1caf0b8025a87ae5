-- ===== src/RateLimit.antt =====
-- app/rate_limit.py: the per-client sliding-window limiter. Times are natural numbers of clock
-- ticks and the window is counted in the same ticks, so `h <= now - window` is written
-- `h + window ≤ now`. A limit below 0 acts as the limit 0, which is the one in the model. The
-- asyncio lock makes each call of `allow` one step.
pub mod Window
pub mod Refinement
use eve_api_cache.Base.{
  ℕ, ◌+◌, ◌-◌, Bool, true, false, not, none, some, List, [], ◌∷◌, ◌++◌, leb, if◌then◌else◌, length,
  filter, Text, get_or,
}
use eve_api_cache.Base.Dict.{Dict, lookup, insert}

-- A deque is the list of its times, the left end first.
pub record Limiter : Type 0 where
  pub limit : ℕ
  pub window : ℕ
  pub hits : Dict (List ℕ)
  pub ops_since_prune : ℕ
  pub prune_interval : ℕ

-- `__init__`
abbrev pub init : ℕ → ℕ → Limiter
init limit window = record {
  limit = limit;
  window = window;
  hits = [];
  ops_since_prune = 0;
  prune_interval = 1000;
}

-- `while hits and hits[0] <= cutoff: hits.popleft()`
unfoldable pub drop_expired : ℕ → ℕ → List ℕ → List ℕ
drop_expired window now [] = []
drop_expired window now (h ∷ hs) =
    if leb (h + window) now then drop_expired window now hs else h ∷ hs

-- `not dq or dq[-1] <= cutoff`
unfoldable pub is_idle : ℕ → ℕ → List ℕ → Bool
is_idle window now [] = true
is_idle window now (h ∷ []) = leb (h + window) now
is_idle window now (h ∷ g ∷ hs) = is_idle window now (g ∷ hs)

-- `_prune`: the idle keys are deleted
unfoldable pub prune : ℕ → ℕ → Dict (List ℕ) → Dict (List ℕ)
unfolding is_idle
prune window now hits = filter (λ e. not (is_idle window now e.1)) hits

-- The counter of the periodic prune.
unfoldable pub count_op : Limiter → ℕ → Limiter
unfolding prune
count_op l now =
    if leb l.prune_interval (l.ops_since_prune + 1)
    then record l { hits = prune l.window now l.hits; ops_since_prune = 0 }
    else record l { ops_since_prune = l.ops_since_prune + 1 }

-- `self._hits[key]` of a `defaultdict(deque)`
abbrev pub hits_of : Limiter → Text → List ℕ
hits_of l key = get_or (lookup key l.hits) []

-- From `hits = self._hits[key]` on: the answer, and the number of requests that remain.
unfoldable pub admit : Limiter → ℕ → Text → Limiter × (Bool × ℕ)
unfolding drop_expired
admit l now key =
    let live = drop_expired l.window now (hits_of l key) in
    if leb l.limit (length live)
    then (record l { hits = insert key live l.hits }, (false, 0))
    else (
      record l { hits = insert key (live ++ now ∷ []) l.hits },
      (true, l.limit - length (live ++ now ∷ [])),
    )

unfoldable pub allow : Limiter → ℕ → Text → Limiter × (Bool × ℕ)
allow l now key = if leb l.limit 0 then (l, (true, l.limit)) else admit (count_op l now) now key

-- The answers to a sequence of calls.
unfoldable pub run : Limiter → List (ℕ × Text) → List (Bool × ℕ)
run l [] = []
run l ((now, key) ∷ calls) = let (l', answer) = allow l now key in answer ∷ run l' calls
