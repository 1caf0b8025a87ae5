-- ===== src/Archive/RoundTrip.antt =====
-- A time-series snapshot that `write_snapshot` of app/archive.py wrote, and what
-- `get_latest_payload` answers then.
use eve_api_cache.Base.{
  ℕ, ◌≤◌, ◌<◌, ◌≡◌, refl, ap, sym, ◌∙◌, subst, Bool, true, false, ◌==◌, Option, none, some, List,
  All, ◌⊎◌, inl, inr, arith, Bytes, text_eq, text_eq_iff, text_eq_refl, Bool-cases, if◌then◌else◌,
}
use eve_api_cache.Base.Exec.{Result, ok}
use eve_api_cache.Json.{null}
use eve_api_cache.Allowlist.Endpoints.{time_series}
use eve_api_cache.Postgres.{do_nothing, upsert, Any, IsGreatest}
use eve_api_cache.Archive.Tables.{
  Tables, TimeSeriesSnapshot, ArchivePayloadBlob, same_idempotency, same_blob, both_eq,
}
use eve_api_cache.Archive.Sessions.{ArchiveEnv, Session}
use eve_api_cache.Archive.Keys.{decompress_payload, decompress_payload-compress_payload}
use eve_api_cache.Archive.Snapshots.{
  Snapshot, blob_row, snapshot_key, timeseries_row, relabel, write_rows, write_snapshot, is_none,
}
use eve_api_cache.Archive.Reads.{
  is_series, of_series, stored_payload, latest_payload, get_latest_payload,
}
use eve_api_cache.Archive.Rows.{
  Any-map, All-map, All-weaken, All-at, Any-All, Any-find, upsert-Any, upsert-All, upsert-fresh,
  rows-insert_one,
}
use eve_api_cache.Archive.Writes.{IsSettled, inserted, write_timeseries_ok}
use eve_api_cache.Archive.Atomic.{write_snapshot_returned, write_snapshot-working}

module _ (env : ArchiveEnv) where
  open env use {pg, lib, sha256}

  -- A blob that decompresses to a body with its hash.
  abbrev pub IsSound : ArchivePayloadBlob → Type 0
  IsSound b =
      (body : Bytes) × ((decompress_payload lib b.payload_codec b.payload_compressed ≡ ok body)
        × (sha256 body ≡ b.content_hash))

  module _ (p : Snapshot) (now : ℕ) where
    abbrev of_snapshot : TimeSeriesSnapshot → Bool
    of_snapshot r = is_series env p.datasource p.path p.query_hash r

    -- A row of another request, or an earlier one.
    abbrev pub IsOld : TimeSeriesSnapshot → Type 0
    IsOld r = (of_snapshot r ≡ false) ⊎ (r.fetched_at < now)

    -- A row without the key of the snapshot.
    abbrev pub IsUnkeyed : TimeSeriesSnapshot → Type 0
    IsUnkeyed r = both_eq r.idempotency_key (some (snapshot_key env p now)) ≡ false

    abbrev IsNew : TimeSeriesSnapshot → Type 0
    IsNew r =
        (of_snapshot r ≡ true)
        × ((r.fetched_at ≡ now) × ((r.content_hash ≡ p.content_hash) × (r.payload ≡ some null)))

    abbrev IsNewest : Tables pg → Type 0
    IsNewest t =
        Any IsNew (pg.rows t.timeseries) × All (λ r. IsNew r ⊎ IsOld r) (pg.rows t.timeseries)

    abbrev HasBlob : Tables pg → Type 0
    HasBlob t =
        Any (λ b. text_eq b.content_hash p.content_hash ≡ true) (pg.rows t.blobs)
        × All IsSound (pg.rows t.blobs)

    abbrev IsStored : Tables pg → Type 0
    IsStored t = IsNewest t × HasBlob t

    -- Only the storage of a row is relabelled.
    relabelled-IsNew :
        (id m : ℕ) (r : TimeSeriesSnapshot)
        → IsNew r
        → IsNew (if r.id == id then relabel env m r else r)
    relabelled-IsNew id m r h = elim (Bool-cases (r.id == id)) [
      | inl this ↦ rw this h
      | inr other ↦ rw other h
    ]

    relabelled-IsOld :
        (id m : ℕ) (r : TimeSeriesSnapshot)
        → IsOld r
        → IsOld (if r.id == id then relabel env m r else r)
    relabelled-IsOld id m r h = elim (Bool-cases (r.id == id)) [
      | inl this ↦ rw this h
      | inr other ↦ rw other h
    ]

    relabelled-either :
        (id m : ℕ) (r : TimeSeriesSnapshot)
        → IsNew r ⊎ IsOld r
        → IsNew (if r.id == id then relabel env m r else r)
          ⊎ IsOld (if r.id == id then relabel env m r else r)
    relabelled-either id m r (inl h) = inl (relabelled-IsNew id m r h)
    relabelled-either id m r (inr h) = inr (relabelled-IsOld id m r h)

    IsStored-IsSettled : IsSettled env IsStored
    IsStored-IsSettled = record {
      apart = record { files = λ t x n h. h; versions = λ t x h. h; entries = λ t x h. h };
      relabelled = λ t id m h. (
        subst (λ rows. Any IsNew rows × All (λ r. IsNew r ⊎ IsOld r) rows)
            (sym (pg.rows-update (λ r. r.id == id) (relabel env m) t.timeseries))
            (
              Any-map IsNew IsNew _ (pg.rows t.timeseries) (relabelled-IsNew id m) h.0.0,
              All-map (λ r. IsNew r ⊎ IsOld r) (λ r. IsNew r ⊎ IsOld r) _ (pg.rows t.timeseries)
                  (relabelled-either id m) h.0.1,
            ),
        h.1,
      );
    }

    timeseries_row-IsNew : (id : ℕ) → IsNew (timeseries_row env p now id)
    unfolding timeseries_row
    timeseries_row-IsNew id = (
      rw (text_eq_refl p.datasource, text_eq_refl p.path, text_eq_refl p.query_hash) refl,
      (refl, (refl, refl)),
    )

    blob_row-IsSound :
        p.content_hash ≡ sha256 p.payload → IsSound (blob_row env p.content_hash p.payload now)
    unfolding blob_row
    blob_row-IsSound hash =
        (p.payload, (decompress_payload-compress_payload lib p.payload, sym hash))

    unkeyed_other :
        (id : ℕ) (r : TimeSeriesSnapshot)
        → IsUnkeyed r
        → same_idempotency r (timeseries_row env p now id) ≡ false
    unfolding timeseries_row
    unkeyed_other id r h = h

    inserted-IsNewest :
        (id : ℕ) (rows : List TimeSeriesSnapshot)
        → All IsOld rows
        → All IsUnkeyed rows
        → Any IsNew (upsert same_idempotency do_nothing (timeseries_row env p now id) rows)
          × All
              (λ r. IsNew r ⊎ IsOld r)
              (upsert same_idempotency do_nothing (timeseries_row env p now id) rows)
    inserted-IsNewest id rows old unkeyed = (
      upsert-fresh same_idempotency do_nothing (timeseries_row env p now id) IsNew rows
          (timeseries_row-IsNew id) (All-weaken IsUnkeyed _ rows (unkeyed_other id) unkeyed),
      upsert-All same_idempotency do_nothing (timeseries_row env p now id) (λ r. IsNew r ⊎ IsOld r)
          rows (inl (timeseries_row-IsNew id)) (λ r same h. h)
          (All-weaken IsOld (λ r. IsNew r ⊎ IsOld r) rows (λ r h. inr h) old),
    )

    new_covers :
        text_eq (blob_row env p.content_hash p.payload now).content_hash p.content_hash ≡ true
    unfolding blob_row
    new_covers = text_eq_refl p.content_hash

    same_covers :
        (b : ArchivePayloadBlob)
        → same_blob b (blob_row env p.content_hash p.payload now) ≡ true
        → text_eq b.content_hash p.content_hash ≡ true
    unfolding blob_row
    same_covers b h = h

    inserted-HasBlob :
        (rows : List ArchivePayloadBlob)
        → p.content_hash ≡ sha256 p.payload
        → All IsSound rows
        → Any
            (λ b. text_eq b.content_hash p.content_hash ≡ true)
            (upsert same_blob do_nothing (blob_row env p.content_hash p.payload now) rows)
          × All IsSound
              (upsert same_blob do_nothing (blob_row env p.content_hash p.payload now) rows)
    inserted-HasBlob rows hash sound = (
      upsert-Any same_blob do_nothing (blob_row env p.content_hash p.payload now) _ rows new_covers
          same_covers,
      upsert-All same_blob do_nothing (blob_row env p.content_hash p.payload now) IsSound rows
          (blob_row-IsSound hash) (λ b same h. h) sound,
    )

    -- The two insertions store the snapshot.
    inserted-IsStored :
        (t : Tables pg)
        → p.content_hash ≡ sha256 p.payload
        → All IsOld (pg.rows t.timeseries)
        → All IsUnkeyed (pg.rows t.timeseries)
        → All IsSound (pg.rows t.blobs)
        → IsStored (inserted env p now t)
    inserted-IsStored t hash old unkeyed sound = (
      subst (λ rows. Any IsNew rows × All (λ r. IsNew r ⊎ IsOld r) rows)
          (sym (
            rows-insert_one pg same_idempotency do_nothing
              (timeseries_row env p now t.next_timeseries) t.timeseries))
          (inserted-IsNewest t.next_timeseries (pg.rows t.timeseries) old unkeyed),
      subst
          (λ rows. Any (λ b. text_eq b.content_hash p.content_hash ≡ true) rows × All IsSound rows)
          (sym (
            rows-insert_one pg same_blob do_nothing (blob_row env p.content_hash p.payload now)
              t.blobs))
          (inserted-HasBlob (pg.rows t.blobs) hash sound),
    )

    -- The newest row is the snapshot's.
    greatest-IsNew :
        (r : TimeSeriesSnapshot) (rows : List TimeSeriesSnapshot)
        → IsGreatest of_snapshot (λ r. r.fetched_at) rows r
        → Any IsNew rows
        → All (λ r. IsNew r ⊎ IsOld r) rows
        → IsNew r
    greatest-IsNew r rows greatest new all =
        let (n, (n_new, n_below)) =
          Any-All IsNew (λ x. (of_snapshot x ≡ false) ⊎ (x.fetched_at ≤ r.fetched_at)) rows new
            greatest.1.1 in
        decide n n_new n_below (All-at (λ x. IsNew x ⊎ IsOld x) r rows all greatest.1.0)
      where
        decide :
            (n : TimeSeriesSnapshot)
            → IsNew n
            → (of_snapshot n ≡ false) ⊎ (n.fetched_at ≤ r.fetched_at)
            → IsNew r ⊎ IsOld r
            → IsNew r
        decide n n_new (inl h) either = absurd (ground (arith, h, n_new.0))
        decide n n_new (inr h) (inl new) = new
        decide n n_new (inr h) (inr (inl old)) = absurd (ground (arith, old, greatest.0))
        decide n n_new (inr h) (inr (inr old)) = absurd (ground (arith, h, old, n_new.1.0))

    -- The blob of a row of the snapshot decompresses to a body with its hash.
    of_series-IsNew :
        (r : TimeSeriesSnapshot) (t : Tables pg) (disk : env.parquet.Disk)
        (otherwise : Result (Option Bytes))
        → IsNew r
        → HasBlob t
        → (body : Bytes) × ((of_series env (some r) t disk otherwise ≡ ok (some body))
            × (sha256 body ≡ p.content_hash))
    of_series-IsNew r t disk otherwise new blob =
        let (b, (found, (covers, (body, (plain, hash))))) =
          Any-find (λ b. text_eq b.content_hash p.content_hash) IsSound (pg.rows t.blobs) blob.0
            blob.1 in
        (
          body,
          (
            rw (new.1.1.1, new.1.1.0, found, plain) refl,
            hash ∙ (text_eq_iff b.content_hash p.content_hash).0 covers,
          ),
        )

    latest-IsStored :
        (t : Tables pg) (disk : env.parquet.Disk) (o : Option TimeSeriesSnapshot)
        → pg.greatest of_snapshot (λ r. r.fetched_at) t.timeseries ≡ o
        → IsStored t
        → (body : Bytes) × ((of_series env o t disk
                (ok (stored_payload env p.datasource p.path p.query_hash t))
              ≡ ok (some body))
            × (sha256 body ≡ p.content_hash))
    latest-IsStored t disk none greatest h =
        let (n, (n_new, other)) =
          Any-All IsNew (λ x. of_snapshot x ≡ false) (pg.rows t.timeseries) h.0.0
            (pg.greatest-none of_snapshot (λ r. r.fetched_at) t.timeseries greatest) in
        absurd (ground (arith, other, n_new.0))
    latest-IsStored t disk (some r) greatest h =
        of_series-IsNew r t disk _
          (greatest-IsNew r (pg.rows t.timeseries)
            (pg.greatest-some of_snapshot (λ r. r.fetched_at) t.timeseries r greatest) h.0.0 h.0.1)
          h.1

    latest_payload-IsStored :
        (t : Tables pg) (disk : env.parquet.Disk)
        → IsStored t
        → (body : Bytes) × ((latest_payload env p.datasource p.path p.query_hash t disk
              ≡ ok (some body))
            × (sha256 body ≡ p.content_hash))
    unfolding latest_payload
    latest_payload-IsStored t disk h = latest-IsStored t disk _ refl h

    write_rows-IsStored :
        (s : Session env)
        → IsStored (inserted env p now s.working)
        → (write_rows env p now time_series s).0 ≡ ok tt
        → IsStored (write_rows env p now time_series s).1.working
    unfolding write_rows
    write_rows-IsStored s brings h =
        write_timeseries_ok env IsStored p now s IsStored-IsSettled h brings

    write_snapshot-IsStored :
        (s : Session env)
        → p.archive_type ≡ time_series
        → IsStored (inserted env p now s.working)
        → (write_snapshot env p now s).0 ≡ ok tt
        → IsStored (write_snapshot env p now s).1.working
          × ((write_snapshot env p now s).1.committed ≡ (write_snapshot env p now s).1.working)
    write_snapshot-IsStored s series brings h =
        let kept = ap is_none series in
        let (returned, committed) = write_snapshot_returned env p now s kept h in
        let working = write_snapshot-working env p now s kept in
        (
          subst IsStored
              (sym (working ∙ ap (λ kind. (write_rows env p now kind s).1.working) series))
              (write_rows-IsStored s brings
                (sym (ap (λ kind. (write_rows env p now kind s).0) series) ∙ returned)),
          committed ∙ sym working,
        )

  -- A time-series snapshot, whose content hash is the SHA-256 of its payload, is written, and
  -- `write_snapshot` returns. No row of the database has its idempotency key yet, every row of the
  -- same request is earlier, and every blob decompresses to a body with its hash. Then
  -- `get_latest_payload`, if its statements reach the server, answers with a body of that hash,
  -- whether or not a Parquet file was written and the row relabelled, and the tables that it reads
  -- are committed.
  pub get_latest_payload-write_snapshot :
      (p : Snapshot) (now : ℕ) (s : Session env)
      → p.archive_type ≡ time_series
      → p.content_hash ≡ sha256 p.payload
      → All (IsOld p now) (pg.rows s.working.timeseries)
      → All (IsUnkeyed p now) (pg.rows s.working.timeseries)
      → All IsSound (pg.rows s.working.blobs)
      → (write_snapshot env p now s).0 ≡ ok tt
      → env.up (write_snapshot env p now s).1.sent ≡ true
      → (body : Bytes) × ((get_latest_payload env p.datasource p.path p.query_hash
              (write_snapshot env p now s).1
            ≡ ok (some body))
          × ((sha256 body ≡ sha256 p.payload)
              × ((write_snapshot env p now s).1.committed
                  ≡ (write_snapshot env p now s).1.working)))
  unfolding get_latest_payload
  get_latest_payload-write_snapshot p now s series hash old unkeyed sound returned up =
      let (stored, committed) =
        write_snapshot-IsStored p now s series
          (inserted-IsStored p now s.working hash old unkeyed sound) returned in
      let (body, (found, hashed)) =
        latest_payload-IsStored p now (write_snapshot env p now s).1.working
          (write_snapshot env p now s).1.disk stored in
      (body, (rw up found, (hashed ∙ hash, committed)))
