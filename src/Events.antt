-- ===== src/Events.antt =====
-- The calls of the metrics registry (app/metrics.py) that the modelled code makes, in their order.
use eve_api_cache.Base.{ℕ, List, Text}
use eve_api_cache.Base.Ints.{ℤ}

abbrev pub Labels : Type 0
Labels = List (Text × Text)

pub data Event : Type 0 where
  inc_counter : Text → Labels → Event
  set_gauge : Text → ℤ → Event
  observe : Text → ℕ → Labels → Event
