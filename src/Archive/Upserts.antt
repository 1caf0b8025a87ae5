-- ===== src/Archive/Upserts.antt =====
-- A reference or an event that `write_snapshot` of app/archive.py wrote, and what
-- `get_latest_payload` answers then.
use eve_api_cache.Base.{
  ℕ, ◌≡◌, refl, ap, sym, ◌∙◌, subst, Bool, true, false, Option, none, some, List, [], ◌∷◌, find,
  All, inl, inr, arith, Bytes, text_eq_refl, Bool-cases,
}
use eve_api_cache.Base.Exec.{ok}
use eve_api_cache.Json.{Value}
use eve_api_cache.Allowlist.Endpoints.{ArchiveType, reference, event}
use eve_api_cache.Postgres.{OnConflict, do_nothing, do_update, resolve, upsert}
use eve_api_cache.Archive.Tables.{
  Tables, TimeSeriesSnapshot, ReferenceSnapshot, EventSnapshot, same_reference, same_event,
}
use eve_api_cache.Archive.Sessions.{ArchiveEnv, Session}
use eve_api_cache.Archive.Snapshots.{
  Snapshot, reference_row, updated, put_reference, write_reference, event_row, put_event,
  write_event, write_rows, write_snapshot, is_none,
}
use eve_api_cache.Archive.Reads.{
  not_null, is_series, is_reference, is_event, or_payload, dumped, payload_of_reference,
  payload_of_event, of_series, stored_payload, latest_payload, get_latest_payload,
}
use eve_api_cache.Archive.Rows.{All-at, rows-insert_one, execute_ok}
use eve_api_cache.Archive.Atomic.{write_snapshot_returned, write_snapshot-working}

-- The row that an upsert leaves where it found one or none.
abbrev pub left_by : {R : Type 0} → OnConflict R → R → Option R → R
left_by act new none = new
left_by act new (some old) = resolve act old new

-- A search for the row of an upsert finds what it left.
find-upsert :
    {R : Type 0} (same : R → R → Bool) (act : OnConflict R) (new : R) (test : R → Bool)
    (rows : List R)
    → ((r : R) → test r ≡ same r new)
    → test new ≡ true
    → ((old : R) → test old ≡ true → test (resolve act old new) ≡ true)
    → find test (upsert same act new rows) ≡ some (left_by act new (find test rows))
find-upsert same act new test [] agrees here kept = rw here refl
find-upsert same act new test (old ∷ rows) agrees here kept = elim (Bool-cases (test old)) [
  | inl found ↦ rw (sym (agrees old) ∙ found, found, kept old found) refl
  | inr other ↦
      rw (sym (agrees old) ∙ other, other, find-upsert same act new test rows agrees here kept) refl
]

-- The payload of the event that is there, or else the new one.
abbrev pub first_payload : Value → Option EventSnapshot → Value
first_payload v none = v
first_payload v (some old) = old.payload

module _ (env : ArchiveEnv) where
  open env use {pg, json}

  none_greatest :
      (t : Tables pg) (test : TimeSeriesSnapshot → Bool) (o : Option TimeSeriesSnapshot)
      → All (λ r. test r ≡ false) (pg.rows t.timeseries)
      → pg.greatest test (λ r. r.fetched_at) t.timeseries ≡ o
      → o ≡ none
  none_greatest t test none absent greatest = refl
  none_greatest t test (some r) absent greatest =
      let found = pg.greatest-some test (λ r. r.fetched_at) t.timeseries r greatest in
      absurd (
        ground
          (arith, found.0, All-at (λ r. test r ≡ false) r (pg.rows t.timeseries) absent found.1.0))

  module _ (p : Snapshot) (now : ℕ) where
    -- No snapshot of a time series has been kept for the request.
    abbrev pub IsUnseries : Tables pg → Type 0
    IsUnseries t =
        All (λ r. is_series env p.datasource p.path p.query_hash r ≡ false) (pg.rows t.timeseries)

    unseries_payload :
        (s : Session env)
        → IsUnseries s.working
        → env.up s.sent ≡ true
        → get_latest_payload env p.datasource p.path p.query_hash s
          ≡ ok (stored_payload env p.datasource p.path p.query_hash s.working)
    unfolding get_latest_payload latest_payload
    unseries_payload s absent up = rw up (
        ap
          (λ o.
            of_series env o s.working s.disk
              (ok (stored_payload env p.datasource p.path p.query_hash s.working)))
          (none_greatest s.working (is_series env p.datasource p.path p.query_hash) _ absent refl))

    -- The find behind one row that was inserted, as the reads do it.
    put_reference-find :
        (t : Tables pg) (v : Value)
        → find
            (is_reference env p.datasource p.path p.query_hash)
            (pg.rows (put_reference env (reference_row env p now v) t).1.references)
          ≡ some (
              left_by
                (do_update (updated env))
                (reference_row env p now v)
                (find (is_reference env p.datasource p.path p.query_hash) (pg.rows t.references)))
    unfolding reference_row
    put_reference-find t v =
        ap (find (is_reference env p.datasource p.path p.query_hash)) (
          rows-insert_one pg same_reference (do_update (updated env)) (reference_row env p now v)
            t.references)
        ∙ find-upsert same_reference (do_update (updated env)) (reference_row env p now v)
            (is_reference env p.datasource p.path p.query_hash) (pg.rows t.references) (λ r. refl)
            (rw (text_eq_refl p.datasource, text_eq_refl p.path, text_eq_refl p.query_hash) refl)
            (λ old h. h)

    put_event-find :
        (t : Tables pg) (v : Value)
        → find
            (is_event env p.datasource p.path p.query_hash)
            (pg.rows (put_event env (event_row env p now v) t).1.events)
          ≡ some (
              left_by do_nothing
                (event_row env p now v)
                (find (is_event env p.datasource p.path p.query_hash) (pg.rows t.events)))
    unfolding event_row
    put_event-find t v =
        ap (find (is_event env p.datasource p.path p.query_hash))
          (rows-insert_one pg same_event do_nothing (event_row env p now v) t.events)
        ∙ find-upsert same_event do_nothing (event_row env p now v)
            (is_event env p.datasource p.path p.query_hash) (pg.rows t.events) (λ r. refl)
            (rw (text_eq_refl p.datasource, text_eq_refl p.path, text_eq_refl p.query_hash) refl)
            (λ old h. h)

    updated_payload :
        (v : Value) (o : Option ReferenceSnapshot)
        → payload_of_reference env
            (some (left_by (do_update (updated env)) (reference_row env p now v) o))
          ≡ not_null v
    unfolding reference_row
    updated_payload v none = refl
    updated_payload v (some old) = refl

    first_payload_kept :
        (v : Value) (o : Option EventSnapshot)
        → payload_of_event env (some (left_by do_nothing (event_row env p now v) o))
          ≡ not_null (first_payload v o)
    unfolding event_row
    first_payload_kept v none = refl
    first_payload_kept v (some old) = refl

    -- What the tables are once the snapshot is written.
    written :
        (s : Session env) (kind : ArchiveType)
        → p.archive_type ≡ kind
        → is_none kind ≡ false
        → (write_snapshot env p now s).0 ≡ ok tt
        → ((write_rows env p now kind s).0 ≡ ok tt)
          × ((write_snapshot env p now s).1.working ≡ (write_rows env p now kind s).1.working)
    written s kind is kept h =
        let kept' = ap is_none is ∙ kept in
        let (returned, committed) = write_snapshot_returned env p now s kept' h in
        (
          sym (ap (λ kind. (write_rows env p now kind s).0) is) ∙ returned,
          write_snapshot-working env p now s kept'
              ∙ ap (λ kind. (write_rows env p now kind s).1.working) is,
        )

    written_reference :
        (s : Session env) (v : Value)
        → json.loads p.payload ≡ some v
        → (write_rows env p now reference s).0 ≡ ok tt
        → (write_rows env p now reference s).1.working
          ≡ (put_reference env (reference_row env p now v) s.working).1
    unfolding write_rows
    written_reference s v reads h =
        ap (λ o. (write_reference env p now o s).1.working) reads
        ∙ (execute_ok env (put_reference env (reference_row env p now v)) s tt
            (sym (ap (λ o. (write_reference env p now o s).0) reads) ∙ h)).0

    written_event :
        (s : Session env) (v : Value)
        → json.loads p.payload ≡ some v
        → (write_rows env p now event s).0 ≡ ok tt
        → (write_rows env p now event s).1.working
          ≡ (put_event env (event_row env p now v) s.working).1
    unfolding write_rows
    written_event s v reads h =
        ap (λ o. (write_event env p now o s).1.working) reads
        ∙ (execute_ok env (put_event env (event_row env p now v)) s tt
            (sym (ap (λ o. (write_event env p now o s).0) reads) ∙ h)).0

    abbrev event_payload : Tables pg → Option Bytes
    event_payload t = dumped env (
        payload_of_event env
          (find (is_event env p.datasource p.path p.query_hash) (pg.rows t.events)))

    stored_reference :
        (t : Tables pg) (v : Value)
        → not_null v ≡ some v
        → stored_payload env p.datasource p.path p.query_hash
            (put_reference env (reference_row env p now v) t).1
          ≡ some (json.dumps v)
    unfolding stored_payload
    stored_reference t v there =
        ap (λ o. or_payload env (payload_of_reference env o) (event_payload t))
          (put_reference-find t v)
        ∙ ap (λ o. or_payload env o (event_payload t)) (updated_payload v _ ∙ there)

    stored_event :
        (t : Tables pg) (v : Value)
        → find (is_reference env p.datasource p.path p.query_hash) (pg.rows t.references) ≡ none
        → stored_payload env p.datasource p.path p.query_hash
            (put_event env (event_row env p now v) t).1
          ≡ dumped env (
              payload_of_event env (
                some (
                  left_by do_nothing
                    (event_row env p now v)
                    (find (is_event env p.datasource p.path p.query_hash) (pg.rows t.events)))))
    unfolding stored_payload
    stored_event t v absent =
        ap
          (λ o.
            or_payload env (payload_of_reference env o)
              (event_payload (put_event env (event_row env p now v) t).1))
          absent
        ∙ ap (λ o. dumped env (payload_of_event env o)) (put_event-find t v)

  -- A reference whose payload reads as JSON other than `null` is written, and `write_snapshot` returns.
  -- No snapshot of a time series is kept for the same request. Then `get_latest_payload`, if its
  -- statements reach the server, answers with this JSON, whatever was kept for the request before.
  pub get_latest_payload-reference :
      (p : Snapshot) (now : ℕ) (s : Session env) (v : Value)
      → p.archive_type ≡ reference
      → json.loads p.payload ≡ some v
      → not_null v ≡ some v
      → IsUnseries p now s.working
      → (write_snapshot env p now s).0 ≡ ok tt
      → env.up (write_snapshot env p now s).1.sent ≡ true
      → get_latest_payload env p.datasource p.path p.query_hash (write_snapshot env p now s).1
        ≡ ok (some (json.dumps v))
  get_latest_payload-reference p now s v is reads there absent returned up =
      let (rows_ok, working) = written p now s reference is refl returned in
      let tables = working ∙ written_reference p now s v reads rows_ok in
      unseries_payload p now (write_snapshot env p now s).1
        (subst (IsUnseries p now) (sym tables) absent) up
      ∙ ap (λ t. ok (stored_payload env p.datasource p.path p.query_hash t)) tables
      ∙ ap (λ b. ok b) (stored_reference p now s.working v there)

  -- An event whose payload reads as JSON is written, and `write_snapshot` returns. Neither a snapshot
  -- of a time series nor a reference is kept for the same request. Then `get_latest_payload`, if its
  -- statements reach the server, answers with the payload of the event that was kept for the request
  -- before, or with this one if there was none, and with nothing where that payload is `null`.
  pub get_latest_payload-event :
      (p : Snapshot) (now : ℕ) (s : Session env) (v : Value)
      → p.archive_type ≡ event
      → json.loads p.payload ≡ some v
      → IsUnseries p now s.working
      → find (is_reference env p.datasource p.path p.query_hash) (pg.rows s.working.references)
        ≡ none
      → (write_snapshot env p now s).0 ≡ ok tt
      → env.up (write_snapshot env p now s).1.sent ≡ true
      → get_latest_payload env p.datasource p.path p.query_hash (write_snapshot env p now s).1
        ≡ ok (
            dumped env (
              not_null (
                first_payload v (
                  find
                    (is_event env p.datasource p.path p.query_hash)
                    (pg.rows s.working.events)))))
  get_latest_payload-event p now s v is reads absent unreferenced returned up =
      let (rows_ok, working) = written p now s event is refl returned in
      let tables = working ∙ written_event p now s v reads rows_ok in
      unseries_payload p now (write_snapshot env p now s).1
        (subst (IsUnseries p now) (sym tables) absent) up
      ∙ ap (λ t. ok (stored_payload env p.datasource p.path p.query_hash t)) tables
      ∙ ap (λ b. ok b)
          (stored_event p now s.working v unreferenced
            ∙ ap (dumped env) (
                first_payload_kept p now v (
                  find (is_event env p.datasource p.path p.query_hash) (pg.rows s.working.events))))
