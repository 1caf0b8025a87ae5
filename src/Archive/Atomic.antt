-- ===== src/Archive/Atomic.antt =====
-- `write_snapshot` of app/archive.py is one transaction.
use eve_api_cache.Base.{ℕ, ◌≡◌, refl, ap, sym, ◌∙◌, true, false, Bool-cases, inl, inr, arith}
use eve_api_cache.Base.Exec.{Error, Result, ok, raise, continue}
use eve_api_cache.Base.Keeps.{Keeps, pure-Keeps}
use eve_api_cache.Allowlist.Endpoints.{ArchiveType, time_series, reference, event, not_archived}
use eve_api_cache.Archive.Tables.{Tables}
use eve_api_cache.Archive.Sessions.{ArchiveEnv, Session, commit, rollback}
use eve_api_cache.Archive.Snapshots.{Snapshot, write_rows, write_snapshot, is_none}
use eve_api_cache.Archive.Untouched.{Both}
use eve_api_cache.Archive.Writes.{
  IsSettled, write_timeseries-Keeps, write_reference-Keeps, write_event-Keeps,
}

module _ (env : ArchiveEnv) where
  open env use {pg, json}

  any_tables-IsSettled : IsSettled env (λ t. Unit)
  any_tables-IsSettled = record {
    apart = record { files = λ t x n h. tt; versions = λ t x h. tt; entries = λ t x h. tt };
    relabelled = λ t id m h. tt;
  }

  write_rows-Keeps :
      (C : Tables pg → Type 0) (p : Snapshot) (now : ℕ) (kind : ArchiveType)
      → Keeps (Both env (λ t. Unit) C) (write_rows env p now kind)
  unfolding write_rows
  write_rows-Keeps C p now time_series =
      write_timeseries-Keeps env (λ t. Unit) C any_tables-IsSettled p now (λ t h. tt) (λ t h. tt)
  write_rows-Keeps C p now reference =
      write_reference-Keeps env (λ t. Unit) C p now (json.loads p.payload) (λ v t h. tt)
  write_rows-Keeps C p now event =
      write_event-Keeps env (λ t. Unit) C p now (json.loads p.payload) (λ v t h. tt)
  write_rows-Keeps C p now not_archived = pure-Keeps tt

  -- Until the commit nothing is committed.
  pub write_rows-committed :
      (p : Snapshot) (now : ℕ) (kind : ArchiveType) (s : Session env)
      → (write_rows env p now kind s).1.committed ≡ s.committed
  write_rows-committed p now kind s =
      ((write_rows-Keeps (λ t. t ≡ s.committed) p now kind).at s (tt, refl)).1

  commit-working : (s : Session env) → (commit env s).1.working ≡ s.working
  unfolding commit
  commit-working s = ground arith

  commit_raised :
      (s : Session env) (e : Error)
      → (commit env s).0 ≡ raise e
      → (commit env s).1.committed ≡ s.committed
  unfolding commit
  commit_raised s e h = ground arith

  commit_returned :
      (s : Session env) → (commit env s).0 ≡ ok tt → (commit env s).1.committed ≡ s.working
  unfolding commit
  commit_returned s h = ground arith

  then_commit-working :
      (r : Result (Unit {0})) (s : Session env)
      → (continue r (λ _. commit env) s).1.working ≡ s.working
  then_commit-working (ok done) s = commit-working s
  then_commit-working (raise e) s = refl

  then_commit_raised :
      (r : Result (Unit {0})) (s : Session env) (e : Error)
      → (continue r (λ _. commit env) s).0 ≡ raise e
      → (continue r (λ _. commit env) s).1.committed ≡ s.committed
  then_commit_raised (ok done) s e h = commit_raised s e h
  then_commit_raised (raise e') s e h = refl

  then_commit_returned :
      (r : Result (Unit {0})) (s : Session env)
      → (continue r (λ _. commit env) s).0 ≡ ok tt
      → (r ≡ ok tt) × ((continue r (λ _. commit env) s).1.committed ≡ s.working)
  then_commit_returned (ok done) s h = (refl, commit_returned s h)
  then_commit_returned (raise e) s h = absurd (ground arith)

  -- What `write_snapshot` does to the open transaction is what its statements do.
  pub write_snapshot-working :
      (p : Snapshot) (now : ℕ) (s : Session env)
      → is_none p.archive_type ≡ false
      → (write_snapshot env p now s).1.working ≡ (write_rows env p now p.archive_type s).1.working
  unfolding write_snapshot
  write_snapshot-working p now s kept = rw kept (
      then_commit-working (write_rows env p now p.archive_type s).0
        (write_rows env p now p.archive_type s).1)

  write_snapshot-kept :
      (p : Snapshot) (now : ℕ) (s : Session env)
      → is_none p.archive_type ≡ false
      → write_snapshot env p now s
        ≡ continue
            (write_rows env p now p.archive_type s).0
            (λ _. commit env)
            (write_rows env p now p.archive_type s).1
  unfolding write_snapshot
  write_snapshot-kept p now s kept = rw kept refl

  write_snapshot-skipped :
      (p : Snapshot) (now : ℕ) (s : Session env)
      → is_none p.archive_type ≡ true
      → write_snapshot env p now s ≡ (ok tt, s)
  unfolding write_snapshot
  write_snapshot-skipped p now s skipped = rw skipped refl

  -- If it returns, its statements did, and their outcome is committed.
  pub write_snapshot_returned :
      (p : Snapshot) (now : ℕ) (s : Session env)
      → is_none p.archive_type ≡ false
      → (write_snapshot env p now s).0 ≡ ok tt
      → ((write_rows env p now p.archive_type s).0 ≡ ok tt)
        × ((write_snapshot env p now s).1.committed
            ≡ (write_rows env p now p.archive_type s).1.working)
  write_snapshot_returned p now s kept h =
      let same = write_snapshot-kept p now s kept in
      let (returned, there) =
        then_commit_returned (write_rows env p now p.archive_type s).0
          (write_rows env p now p.archive_type s).1
          (sym (ap (λ (e : Result (Unit {0}) × Session env). e.0) same) ∙ h) in
      (returned, ap (λ (e : Result (Unit {0}) × Session env). e.1.committed) same ∙ there)

  write_snapshot_raised :
      (p : Snapshot) (now : ℕ) (s : Session env) (e : Error)
      → (write_snapshot env p now s).0 ≡ raise e
      → (write_snapshot env p now s).1.committed ≡ s.committed
  write_snapshot_raised p now s e h = elim (Bool-cases (is_none p.archive_type)) [
    | inl skipped ↦
        ap (λ (e : Result (Unit {0}) × Session env). e.1.committed)
          (write_snapshot-skipped p now s skipped)
    | inr kept ↦
        ap (λ (e : Result (Unit {0}) × Session env). e.1.committed)
          (write_snapshot-kept p now s kept)
        ∙ (then_commit_raised (write_rows env p now p.archive_type s).0
              (write_rows env p now p.archive_type s).1 e
              (sym (
                  ap (λ (e : Result (Unit {0}) × Session env). e.0)
                    (write_snapshot-kept p now s kept))
                ∙ h)
            ∙ write_rows-committed p now p.archive_type s)
  ]

  -- If `write_snapshot` raises, at whichever statement, nothing of it is committed, and a rollback
  -- brings the tables back as they were committed before.
  pub rollback-write_snapshot :
      (p : Snapshot) (now : ℕ) (s : Session env) (e : Error)
      → (write_snapshot env p now s).0 ≡ raise e
      → ((rollback env (write_snapshot env p now s).1).working ≡ s.committed)
        × ((rollback env (write_snapshot env p now s).1).committed ≡ s.committed)
  unfolding rollback
  rollback-write_snapshot p now s e h =
      (write_snapshot_raised p now s e h, write_snapshot_raised p now s e h)
