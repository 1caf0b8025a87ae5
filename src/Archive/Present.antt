-- ===== src/Archive/Present.antt =====
-- The rows that `write_snapshot` of app/archive.py leaves in its tables.
use eve_api_cache.Base.{
  ℕ, ◌≡◌, refl, ap, sym, ◌∙◌, subst, true, ◌==◌, Option, none, some, text_eq, text_eq_refl,
  Bool-cases, inl, inr, arith, if◌then◌else◌,
}
use eve_api_cache.Base.Exec.{ok}
use eve_api_cache.Json.{Value}
use eve_api_cache.Allowlist.Endpoints.{ArchiveType, time_series, reference, event, not_archived}
use eve_api_cache.Postgres.{Any, do_nothing, do_update}
use eve_api_cache.Archive.Tables.{
  Tables, TimeSeriesSnapshot, ArchivePayloadBlob, ReferenceSnapshot, EventSnapshot, both_eq,
  same_idempotency, same_blob, same_reference, same_event,
}
use eve_api_cache.Archive.Sessions.{ArchiveEnv, Session}
use eve_api_cache.Archive.Keys.{bucket, timeseries_idempotency_key}
use eve_api_cache.Archive.Snapshots.{
  Snapshot, blob_row, snapshot_key, timeseries_row, relabel, reference_row, updated, put_reference,
  write_reference, event_row, put_event, write_event, write_rows,
}
use eve_api_cache.Archive.Reads.{is_reference, is_event}
use eve_api_cache.Archive.Rows.{Any-map, upsert-Any, rows-insert_one, execute_ok}
use eve_api_cache.Archive.Writes.{IsSettled, inserted, write_timeseries_ok}

module _ (env : ArchiveEnv) where
  open env use {pg, json}

  module _ (p : Snapshot) (now : ℕ) where
    abbrev pub IsKeyed : TimeSeriesSnapshot → Type 0
    IsKeyed r = both_eq r.idempotency_key (some (snapshot_key env p now)) ≡ true

    abbrev pub IsBlob : ArchivePayloadBlob → Type 0
    IsBlob b = text_eq b.content_hash p.content_hash ≡ true

    abbrev pub IsReference : ReferenceSnapshot → Type 0
    IsReference r = is_reference env p.datasource p.path p.query_hash r ≡ true

    abbrev pub IsEvent : EventSnapshot → Type 0
    IsEvent r = is_event env p.datasource p.path p.query_hash r ≡ true

    -- The rows of the snapshot are there.
    abbrev pub Has : ArchiveType → Tables pg → Type 0
    Has time_series t = Any IsKeyed (pg.rows t.timeseries) × Any IsBlob (pg.rows t.blobs)
    Has reference t = Any IsReference (pg.rows t.references)
    Has event t = Any IsEvent (pg.rows t.events)
    Has not_archived t = Unit

    relabelled-IsKeyed :
        (id m : ℕ) (r : TimeSeriesSnapshot)
        → IsKeyed r
        → IsKeyed (if r.id == id then relabel env m r else r)
    relabelled-IsKeyed id m r h = elim (Bool-cases (r.id == id)) [
      | inl this ↦ rw this h
      | inr other ↦ rw other h
    ]

    pub relabelled-Has :
        (t : Tables pg) (id m : ℕ)
        → Has time_series t
        → Has time_series
            (record t { timeseries = pg.update (λ r. r.id == id) (relabel env m) t.timeseries })
    relabelled-Has t id m h = (
      subst (Any IsKeyed) (sym (pg.rows-update (λ r. r.id == id) (relabel env m) t.timeseries))
          (Any-map IsKeyed IsKeyed _ (pg.rows t.timeseries) (relabelled-IsKeyed id m) h.0),
      h.1,
    )

    Has-IsSettled : IsSettled env (Has time_series)
    Has-IsSettled = record {
      apart = record { files = λ t x n h. h; versions = λ t x h. h; entries = λ t x h. h };
      relabelled = relabelled-Has;
    }

    -- The rows of the snapshot at a time in the same minute.
    module _ (now' : ℕ) (minute : bucket env.calendar now ≡ bucket env.calendar now') where
      same_key : snapshot_key env p now ≡ snapshot_key env p now'
      unfolding timeseries_idempotency_key
      same_key = rw minute refl

      pub IsKeyed-again :
          (id : ℕ) (r : TimeSeriesSnapshot)
          → IsKeyed r
          → same_idempotency r (timeseries_row env p now' id) ≡ true
      unfolding timeseries_row
      IsKeyed-again id r h = sym (ap (λ key. both_eq r.idempotency_key (some key)) same_key) ∙ h

      again-IsKeyed :
          (id : ℕ) (r : TimeSeriesSnapshot)
          → same_idempotency r (timeseries_row env p now' id) ≡ true
          → IsKeyed r
      unfolding timeseries_row
      again-IsKeyed id r h = ap (λ key. both_eq r.idempotency_key (some key)) same_key ∙ h

    new_key : (id : ℕ) → IsKeyed (timeseries_row env p now id)
    unfolding timeseries_row
    new_key id = text_eq_refl (snapshot_key env p now)

    blob_row-IsBlob : (at : ℕ) → IsBlob (blob_row env p.content_hash p.payload at)
    unfolding blob_row
    blob_row-IsBlob at = text_eq_refl p.content_hash

    pub IsBlob-again :
        (at : ℕ) (b : ArchivePayloadBlob)
        → IsBlob b
        → same_blob b (blob_row env p.content_hash p.payload at) ≡ true
    unfolding blob_row
    IsBlob-again at b h = h

    again-IsBlob :
        (at : ℕ) (b : ArchivePayloadBlob)
        → same_blob b (blob_row env p.content_hash p.payload at) ≡ true
        → IsBlob b
    unfolding blob_row
    again-IsBlob at b h = h

    inserted-Has : (t : Tables pg) → Has time_series (inserted env p now t)
    inserted-Has t = (
      subst (Any IsKeyed)
          (sym (
            rows-insert_one pg same_idempotency do_nothing
              (timeseries_row env p now t.next_timeseries) t.timeseries))
          (upsert-Any same_idempotency do_nothing (timeseries_row env p now t.next_timeseries)
            IsKeyed (pg.rows t.timeseries) (new_key t.next_timeseries)
            (again-IsKeyed now refl t.next_timeseries)),
      subst (Any IsBlob)
          (sym (
            rows-insert_one pg same_blob do_nothing (blob_row env p.content_hash p.payload now)
              t.blobs))
          (upsert-Any same_blob do_nothing (blob_row env p.content_hash p.payload now) IsBlob
            (pg.rows t.blobs) (blob_row-IsBlob now) (again-IsBlob now)),
    )

    reference_row-IsReference : (at : ℕ) (v : Value) → IsReference (reference_row env p at v)
    unfolding reference_row
    reference_row-IsReference at v =
        rw (text_eq_refl p.datasource, text_eq_refl p.path, text_eq_refl p.query_hash) refl

    pub IsReference-again :
        (at : ℕ) (v : Value) (r : ReferenceSnapshot)
        → IsReference r
        → same_reference r (reference_row env p at v) ≡ true
    unfolding reference_row
    IsReference-again at v r h = h

    pub again-IsReference :
        (at : ℕ) (v : Value) (r : ReferenceSnapshot)
        → same_reference r (reference_row env p at v) ≡ true
        → IsReference (updated env r (reference_row env p at v))
    unfolding reference_row
    again-IsReference at v r h = h

    event_row-IsEvent : (at : ℕ) (v : Value) → IsEvent (event_row env p at v)
    unfolding event_row
    event_row-IsEvent at v =
        rw (text_eq_refl p.datasource, text_eq_refl p.path, text_eq_refl p.query_hash) refl

    pub IsEvent-again :
        (at : ℕ) (v : Value) (r : EventSnapshot)
        → IsEvent r
        → same_event r (event_row env p at v) ≡ true
    unfolding event_row
    IsEvent-again at v r h = h

    again-IsEvent :
        (at : ℕ) (v : Value) (r : EventSnapshot)
        → same_event r (event_row env p at v) ≡ true
        → IsEvent r
    unfolding event_row
    again-IsEvent at v r h = h

    put_reference-Has :
        (v : Value) (t : Tables pg)
        → Has reference (put_reference env (reference_row env p now v) t).1
    put_reference-Has v t =
        subst (Any IsReference)
          (sym (
            rows-insert_one pg same_reference (do_update (updated env)) (reference_row env p now v)
              t.references))
          (upsert-Any same_reference (do_update (updated env)) (reference_row env p now v)
            IsReference (pg.rows t.references) (reference_row-IsReference now v)
            (again-IsReference now v))

    put_event-Has :
        (v : Value) (t : Tables pg) → Has event (put_event env (event_row env p now v) t).1
    put_event-Has v t =
        subst (Any IsEvent)
          (sym (rows-insert_one pg same_event do_nothing (event_row env p now v) t.events))
          (upsert-Any same_event do_nothing (event_row env p now v) IsEvent (pg.rows t.events)
            (event_row-IsEvent now v) (again-IsEvent now v))

    write_reference-Has :
        (payload : Option Value) (s : Session env)
        → (write_reference env p now payload s).0 ≡ ok tt
        → Has reference (write_reference env p now payload s).1.working
    write_reference-Has none s h = absurd (ground arith)
    write_reference-Has (some v) s h =
        subst (Has reference)
          (sym (execute_ok env (put_reference env (reference_row env p now v)) s tt h).0)
          (put_reference-Has v s.working)

    write_event-Has :
        (payload : Option Value) (s : Session env)
        → (write_event env p now payload s).0 ≡ ok tt
        → Has event (write_event env p now payload s).1.working
    write_event-Has none s h = absurd (ground arith)
    write_event-Has (some v) s h =
        subst (Has event) (sym (execute_ok env (put_event env (event_row env p now v)) s tt h).0)
          (put_event-Has v s.working)

    -- A write that returned has left its rows.
    pub write_rows-Has :
        (kind : ArchiveType) (s : Session env)
        → (write_rows env p now kind s).0 ≡ ok tt
        → Has kind (write_rows env p now kind s).1.working
    unfolding write_rows
    write_rows-Has time_series s h =
        write_timeseries_ok env (Has time_series) p now s Has-IsSettled h (inserted-Has s.working)
    write_rows-Has reference s h = write_reference-Has (json.loads p.payload) s h
    write_rows-Has event s h = write_event-Has (json.loads p.payload) s h
    write_rows-Has not_archived s h = tt
