-- ===== src/Archive/Retry.antt =====
-- A second `write_snapshot` of app/archive.py of the same response.
use eve_api_cache.Base.{ℕ, ◌≡◌, refl, ap, sym, ◌∙◌, subst, Bool, true, false, ◌==◌, List, length}
use eve_api_cache.Base.Exec.{ok}
use eve_api_cache.Base.Keeps.{Keeps, pure-Keeps}
use eve_api_cache.Json.{Value}
use eve_api_cache.Allowlist.Endpoints.{ArchiveType, time_series, reference, event, not_archived}
use eve_api_cache.Postgres.{Any, OnConflict, do_nothing, do_update, resolve, upsert}
use eve_api_cache.Archive.Tables.{Tables, same_idempotency, same_blob, same_reference, same_event}
use eve_api_cache.Archive.Sessions.{ArchiveEnv, Session}
use eve_api_cache.Archive.Keys.{bucket}
use eve_api_cache.Archive.Snapshots.{
  Snapshot, blob_row, put_blob, timeseries_row, put_timeseries, relabel, reference_row, updated,
  put_reference, event_row, put_event, write_rows, write_snapshot, is_none,
}
use eve_api_cache.Archive.Rows.{
  Any-weaken, length-map, upsert-keeps-Any, length-upsert, rows-insert_one,
}
use eve_api_cache.Archive.Untouched.{Both}
use eve_api_cache.Archive.Writes.{
  IsSettled, write_timeseries-Keeps, write_reference-Keeps, write_event-Keeps,
}
use eve_api_cache.Archive.Present.{
  IsKeyed, IsBlob, IsReference, IsEvent, Has, relabelled-Has, IsKeyed-again, IsBlob-again,
  IsReference-again, again-IsReference, IsEvent-again, write_rows-Has,
}
use eve_api_cache.Archive.Atomic.{write_snapshot_returned, write_snapshot-working}

module _ {R : Type 0} (same : R → R → Bool) (act : OnConflict R) (new : R) (Q : R → Type 0)
    (has : (r : R) → Q r → same r new ≡ true)
    (keeps : (r : R) → same r new ≡ true → Q r → Q (resolve act r new)) where
  -- Once a row agrees with the new one, an insertion adds none.
  upsert_again :
      (rows : List R) (n : ℕ)
      → Any Q rows × (length rows ≡ n)
      → Any Q (upsert same act new rows) × (length (upsert same act new rows) ≡ n)
  upsert_again rows n h = (
    upsert-keeps-Any same act new Q rows keeps h.0,
    length-upsert same act new rows (Any-weaken Q _ rows has h.0) ∙ h.1,
  )

module _ (env : ArchiveEnv) where
  open env use {pg, json}

  -- The rows of the tables that `write_snapshot` adds to.
  abbrev pub row_counts : Tables pg → ℕ × (ℕ × (ℕ × ℕ))
  row_counts t = (
    length (pg.rows t.timeseries),
    (length (pg.rows t.blobs), (length (pg.rows t.references), length (pg.rows t.events))),
  )

  module _ (p : Snapshot) (now : ℕ) where
    abbrev IsCounted : ℕ × (ℕ × (ℕ × ℕ)) → Tables pg → Type 0
    IsCounted n t =
        (length (pg.rows t.timeseries) ≡ n.0)
        × ((length (pg.rows t.blobs) ≡ n.1.0)
            × ((length (pg.rows t.references) ≡ n.1.1.0) × (length (pg.rows t.events) ≡ n.1.1.1)))

    abbrev HasCounted : ArchiveType → ℕ × (ℕ × (ℕ × ℕ)) → Tables pg → Type 0
    HasCounted kind n t = Has env p now kind t × IsCounted n t

    relabelled-IsCounted :
        (n : ℕ × (ℕ × (ℕ × ℕ))) (t : Tables pg) (id m : ℕ)
        → IsCounted n t
        → IsCounted n
            (record t { timeseries = pg.update (λ r. r.id == id) (relabel env m) t.timeseries })
    relabelled-IsCounted n t id m h = (
      ap length (pg.rows-update (λ r. r.id == id) (relabel env m) t.timeseries)
          ∙ (length-map _ (pg.rows t.timeseries) ∙ h.0),
      h.1,
    )

    HasCounted-IsSettled : (n : ℕ × (ℕ × (ℕ × ℕ))) → IsSettled env (HasCounted time_series n)
    HasCounted-IsSettled n = record {
      apart = record { files = λ t x n h. h; versions = λ t x h. h; entries = λ t x h. h };
      relabelled =
          λ t id m h. (relabelled-Has env p now t id m h.0, relabelled-IsCounted n t id m h.1);
    }

    module _ (n : ℕ × (ℕ × (ℕ × ℕ))) (now' : ℕ)
        (minute : bucket env.calendar now ≡ bucket env.calendar now') where
      blob_counted :
          (t : Tables pg)
          → HasCounted time_series n t
          → HasCounted time_series n (put_blob env (blob_row env p.content_hash p.payload now') t).1
      blob_counted t h =
          let (has, counted) =
            subst (λ rows. Any (IsBlob env p now) rows × (length rows ≡ n.1.0))
              (sym (
                rows-insert_one pg same_blob do_nothing (blob_row env p.content_hash p.payload now')
                  t.blobs))
              (upsert_again same_blob do_nothing (blob_row env p.content_hash p.payload now')
                (IsBlob env p now) (IsBlob-again env p now now') (λ r same q. q) (pg.rows t.blobs)
                n.1.0 (h.0.1, h.1.1.0)) in
          ((h.0.0, has), (h.1.0, (counted, h.1.1.1)))

      timeseries_counted :
          (t : Tables pg)
          → HasCounted time_series n t
          → HasCounted time_series n (put_timeseries env (timeseries_row env p now') t).1
      timeseries_counted t h =
          let (has, counted) =
            subst (λ rows. Any (IsKeyed env p now) rows × (length rows ≡ n.0))
              (sym (
                rows-insert_one pg same_idempotency do_nothing
                  (timeseries_row env p now' t.next_timeseries) t.timeseries))
              (upsert_again same_idempotency do_nothing
                (timeseries_row env p now' t.next_timeseries) (IsKeyed env p now)
                (IsKeyed-again env p now now' minute t.next_timeseries) (λ r same q. q)
                (pg.rows t.timeseries) n.0 (h.0.0, h.1.0)) in
          ((has, h.0.1), (counted, h.1.1))

      reference_counted :
          (v : Value) (t : Tables pg)
          → HasCounted reference n t
          → HasCounted reference n (put_reference env (reference_row env p now' v) t).1
      reference_counted v t h =
          let (has, counted) =
            subst (λ rows. Any (IsReference env p now) rows × (length rows ≡ n.1.1.0))
              (sym (
                rows-insert_one pg same_reference (do_update (updated env))
                  (reference_row env p now' v) t.references))
              (upsert_again same_reference (do_update (updated env)) (reference_row env p now' v)
                (IsReference env p now) (IsReference-again env p now now' v)
                (λ r same q. again-IsReference env p now now' v r same) (pg.rows t.references)
                n.1.1.0 (h.0, h.1.1.1.0)) in
          (has, (h.1.0, (h.1.1.0, (counted, h.1.1.1.1))))

      event_counted :
          (v : Value) (t : Tables pg)
          → HasCounted event n t
          → HasCounted event n (put_event env (event_row env p now' v) t).1
      event_counted v t h =
          let (has, counted) =
            subst (λ rows. Any (IsEvent env p now) rows × (length rows ≡ n.1.1.1))
              (sym (rows-insert_one pg same_event do_nothing (event_row env p now' v) t.events))
              (upsert_again same_event do_nothing (event_row env p now' v) (IsEvent env p now)
                (IsEvent-again env p now now' v) (λ r same q. q) (pg.rows t.events) n.1.1.1
                (h.0, h.1.1.1.1)) in
          (has, (h.1.0, (h.1.1.0, (h.1.1.1.0, counted))))

      -- The second write keeps the rows and the counts, whatever becomes of it.
      again-Keeps :
          (kind : ArchiveType)
          → Keeps (Both env (HasCounted kind n) (λ t. Unit)) (write_rows env p now' kind)
      unfolding write_rows
      again-Keeps time_series =
          write_timeseries-Keeps env (HasCounted time_series n) (λ t. Unit) (HasCounted-IsSettled n)
            p now' blob_counted timeseries_counted
      again-Keeps reference =
          write_reference-Keeps env (HasCounted reference n) (λ t. Unit) p now'
            (json.loads p.payload) reference_counted
      again-Keeps event =
          write_event-Keeps env (HasCounted event n) (λ t. Unit) p now' (json.loads p.payload)
            event_counted
      again-Keeps not_archived = pure-Keeps tt

  -- `write_snapshot` has returned for an endpoint that is archived. Another call for the same response,
  -- in the same minute and on the tables that the first one left, adds no row to the tables of the
  -- time series, blobs, references and events, whether or not it returns.
  pub write_snapshot_again :
      (p : Snapshot) (now now' : ℕ) (s s' : Session env)
      → is_none p.archive_type ≡ false
      → bucket env.calendar now ≡ bucket env.calendar now'
      → (write_snapshot env p now s).0 ≡ ok tt
      → s'.working ≡ (write_snapshot env p now s).1.working
      → row_counts (write_snapshot env p now' s').1.working ≡ row_counts s'.working
  write_snapshot_again p now now' s s' kept minute returned same =
      let has : Has env p now p.archive_type s'.working =
        subst (Has env p now p.archive_type) (sym (same ∙ write_snapshot-working env p now s kept))
          (write_rows-Has env p now p.archive_type s
            (write_snapshot_returned env p now s kept returned).0) in
      let ((_, (a, (b, (c, d)))), _) =
        (again-Keeps p now (row_counts s'.working) now' minute p.archive_type).at s'
          ((has, (refl, (refl, (refl, refl)))), tt) in
      ap row_counts (write_snapshot-working env p now' s' kept) ∙ rw (a, b, c, d) refl
