-- ===== src/Archive/Writes.antt =====
-- What `write_snapshot` of app/archive.py keeps, and what holds once it has returned.
use eve_api_cache.Base.{ℕ, ◌≡◌, ap, sym, ◌∙◌, subst, not, ◌&&◌, ◌==◌, Option, none, some, Text}
use eve_api_cache.Base.Exec.{Exec, Result, ok, value_error, ◌>>=◌}
use eve_api_cache.Base.Keeps.{Keeps, pure-Keeps, throw-Keeps, bind-Keeps, then-Keeps, when-Keeps}
use eve_api_cache.Json.{Value}
use eve_api_cache.Archive.Tables.{Tables}
use eve_api_cache.Archive.Sessions.{ArchiveEnv, Session, execute}
use eve_api_cache.Archive.Snapshots.{
  Snapshot, blob_row, put_blob, write_payload_blob, snapshot_key, timeseries_row, put_timeseries,
  get_timeseries_id_by_idempotency_key, relabel_snapshot, write_parquet, known_id, write_timeseries,
  put_reference, reference_row, write_reference, put_event, event_row, write_event, relabel,
  wants_parquet,
}
use eve_api_cache.Archive.Untouched.{
  Both, IsApart, execute-Keeps, write_market_orders_parquet-Keeps,
}
use eve_api_cache.Archive.Rows.{bind_ok, execute_ok}

module _ (env : ArchiveEnv) where
  open env use {pg, json}

  -- A property that the statements behind the insertion of a time-series row keep.
  pub record IsSettled (P : Tables pg → Type 0) : Type 0 where
    pub apart : IsApart env P
    pub relabelled :
        (t : Tables pg) (id manifest_id : ℕ)
        → P t
        → P (record t {
          timeseries = pg.update (λ r. r.id == id) (relabel env manifest_id) t.timeseries;
        })

  module _ (P C : Tables pg → Type 0) (settled : IsSettled P) where
    relabel-Keeps :
        (id : ℕ) (manifest : Option ℕ) → Keeps (Both env P C) (relabel_snapshot env id manifest)
    unfolding relabel_snapshot
    relabel-Keeps id none = pure-Keeps tt
    relabel-Keeps id (some m) = execute-Keeps env P C _ (λ t p. settled.relabelled t id m p)

    known_id-Keeps : (key : Text) (o : Option ℕ) → Keeps (Both env P C) (known_id env key o)
    unfolding get_timeseries_id_by_idempotency_key
    known_id-Keeps key none = execute-Keeps env P C _ (λ t p. p)
    known_id-Keeps key (some id) = pure-Keeps (some id)

    write_parquet-Keeps :
        (p : Snapshot) (now : ℕ) (id : Option ℕ) → Keeps (Both env P C) (write_parquet env p now id)
    unfolding write_parquet
    write_parquet-Keeps p now none = pure-Keeps tt
    write_parquet-Keeps p now (some id) = when-Keeps (not (id == 0) && wants_parquet env p) (
        bind-Keeps
          (write_market_orders_parquet-Keeps env P C settled.apart id p.datasource p.path
            p.query_hash p.content_hash p.payload now)
          (λ manifest. relabel-Keeps id manifest))

    rest-Keeps :
        (p : Snapshot) (now : ℕ) (o : Option ℕ)
        → Keeps (Both env P C) (known_id env (snapshot_key env p now) o >>= write_parquet env p now)
    rest-Keeps p now o =
        bind-Keeps (known_id-Keeps (snapshot_key env p now) o) (λ id. write_parquet-Keeps p now id)

    pub write_timeseries-Keeps :
        (p : Snapshot) (now : ℕ)
        → ((t : Tables pg) → P t → P (put_blob env (blob_row env p.content_hash p.payload now) t).1)
        → ((t : Tables pg) → P t → P (put_timeseries env (timeseries_row env p now) t).1)
        → Keeps (Both env P C) (write_timeseries env p now)
    unfolding write_timeseries write_payload_blob
    write_timeseries-Keeps p now blob row =
        then-Keeps (execute-Keeps env P C _ blob)
          (bind-Keeps (execute-Keeps env P C _ row) (rest-Keeps p now))

  abbrev pub inserted : Snapshot → ℕ → Tables pg → Tables pg
  inserted p now t =
      (put_timeseries env (timeseries_row env p now)
        (put_blob env (blob_row env p.content_hash p.payload now) t).1).1

  -- What the two insertions bring about holds when `write_timeseries` has returned.
  pub write_timeseries_ok :
      (P : Tables pg → Type 0) (p : Snapshot) (now : ℕ) (s : Session env)
      → IsSettled P
      → (write_timeseries env p now s).0 ≡ ok tt
      → P (inserted p now s.working)
      → P (write_timeseries env p now s).1.working
  unfolding write_timeseries write_payload_blob
  write_timeseries_ok P p now s settled h brings =
      let rest : Option ℕ → Exec (Session env) (Unit {0}) =
        λ o. known_id env (snapshot_key env p now) o >>= write_parquet env p now in
      let row : Exec (Session env) (Option ℕ) =
        execute env (put_timeseries env (timeseries_row env p now)) in
      let blob : Exec (Session env) (Unit {0}) =
        execute env (put_blob env (blob_row env p.content_hash p.payload now)) in
      let (a, (e, same)) = bind_ok blob (λ _. row >>= rest) s tt h in
      let (o, (e', same')) =
        bind_ok row rest (blob s).1 tt
          (sym (ap (λ (end : Result (Unit {0}) × Session env). end.0) same) ∙ h) in
      let (there, _) =
        execute_ok env (put_blob env (blob_row env p.content_hash p.payload now)) s a e in
      let (there', _) =
        execute_ok env (put_timeseries env (timeseries_row env p now)) (blob s).1 o e' in
      subst (λ (end : Result (Unit {0}) × Session env). P end.1.working) (sym (same ∙ same'))
        ((rest-Keeps P (λ t. Unit) settled p now o).at (row (blob s).1).1 (
          subst P
              (sym (there' ∙ ap (λ t. (put_timeseries env (timeseries_row env p now) t).1) there))
              brings,
          tt,
        )).0

  pub write_reference-Keeps :
      (P C : Tables pg → Type 0) (p : Snapshot) (now : ℕ) (payload : Option Value)
      → ((v : Value) (t : Tables pg) → P t → P (put_reference env (reference_row env p now v) t).1)
      → Keeps (Both env P C) (write_reference env p now payload)
  write_reference-Keeps P C p now none h = throw-Keeps value_error
  write_reference-Keeps P C p now (some v) h = execute-Keeps env P C _ (h v)

  pub write_event-Keeps :
      (P C : Tables pg → Type 0) (p : Snapshot) (now : ℕ) (payload : Option Value)
      → ((v : Value) (t : Tables pg) → P t → P (put_event env (event_row env p now v) t).1)
      → Keeps (Both env P C) (write_event env p now payload)
  write_event-Keeps P C p now none h = throw-Keeps value_error
  write_event-Keeps P C p now (some v) h = execute-Keeps env P C _ (h v)
