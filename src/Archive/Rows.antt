-- ===== src/Archive/Rows.antt =====
-- The rows of a table after the statements of app/archive.py.
use eve_api_cache.Base.{
  suc, ◌+◌, ◌≡◌, refl, ap, sym, ◌∙◌, subst, Bool, true, false, some, List, [], ◌∷◌, map, find,
  length, All, ◌⊎◌, inl, inr, arith, Bool-cases,
}
use eve_api_cache.Base.Exec.{Exec, Result, ok, raise, database_error, continue, ◌>>=◌}
use eve_api_cache.Postgres.{Postgres, OnConflict, do_nothing, do_update, resolve, upsert, Any}
use eve_api_cache.Archive.Tables.{Tables}
use eve_api_cache.Archive.Sessions.{ArchiveEnv, Session, execute}

module _ {R : Type 0} where
  pub Any-weaken :
      (P Q : R → Type 0) (rows : List R) → ((r : R) → P r → Q r) → Any P rows → Any Q rows
  Any-weaken P Q [] f h = h
  Any-weaken P Q (r ∷ rows) f (inl h) = inl (f r h)
  Any-weaken P Q (r ∷ rows) f (inr h) = inr (Any-weaken P Q rows f h)

  pub Any-map :
      (P Q : R → Type 0) (g : R → R) (rows : List R)
      → ((r : R) → P r → Q (g r))
      → Any P rows
      → Any Q (map g rows)
  Any-map P Q g [] f h = h
  Any-map P Q g (r ∷ rows) f (inl h) = inl (f r h)
  Any-map P Q g (r ∷ rows) f (inr h) = inr (Any-map P Q g rows f h)

  pub All-map :
      (P Q : R → Type 0) (g : R → R) (rows : List R)
      → ((r : R) → P r → Q (g r))
      → All P rows
      → All Q (map g rows)
  All-map P Q g [] f h = h
  All-map P Q g (r ∷ rows) f h = (f r h.0, All-map P Q g rows f h.1)

  -- What holds of every row holds of one that is there.
  pub All-at : (Q : R → Type 0) (r : R) (rows : List R) → All Q rows → Any (λ x. x ≡ r) rows → Q r
  All-at Q r [] all h = elim h [ ]
  All-at Q r (x ∷ rows) all (inl same) = subst Q same all.0
  All-at Q r (x ∷ rows) all (inr h) = All-at Q r rows all.1 h

  -- A row with one property has every property that all rows have.
  pub Any-All : (P Q : R → Type 0) (rows : List R) → Any P rows → All Q rows → (r : R) × (P r × Q r)
  Any-All P Q [] h all = elim h [ ]
  Any-All P Q (r ∷ rows) (inl h) all = (r, (h, all.0))
  Any-All P Q (r ∷ rows) (inr h) all = Any-All P Q rows h all.1

  -- A search for a row that is there finds one.
  pub Any-find :
      (test : R → Bool) (Q : R → Type 0) (rows : List R)
      → Any (λ r. test r ≡ true) rows
      → All Q rows
      → (r : R) × ((find test rows ≡ some r) × ((test r ≡ true) × Q r))
  Any-find test Q [] h all = elim h [ ]
  Any-find test Q (r ∷ rows) h all = elim (Bool-cases (test r)) [
    | inl here ↦ (r, (rw here refl, (here, all.0)))
    | inr other ↦ behind other (Any-find test Q rows) h
  ]
    where
      behind :
          test r ≡ false
          → (Any (λ r. test r ≡ true) rows
              → All Q rows
              → (r : R) × ((find test rows ≡ some r) × ((test r ≡ true) × Q r)))
          → (test r ≡ true) ⊎ Any (λ r. test r ≡ true) rows
          → (r' : R) × ((find test (r ∷ rows) ≡ some r') × ((test r' ≡ true) × Q r'))
      behind other again (inl here) = absurd (ground (arith, other, here))
      behind other again (inr h) =
          let (r', (found, rest)) = again h all.1 in (r', (rw other found, rest))

  pub All-weaken :
      (P Q : R → Type 0) (rows : List R) → ((r : R) → P r → Q r) → All P rows → All Q rows
  All-weaken P Q [] f h = h
  All-weaken P Q (r ∷ rows) f h = (f r h.0, All-weaken P Q rows f h.1)

  pub length-map : (g : R → R) (rows : List R) → length (map g rows) ≡ length rows
  length-map g [] = refl
  length-map g (r ∷ rows) = ap suc (length-map g rows)

  module _ (same : R → R → Bool) (act : OnConflict R) (new : R) where
    -- A row that agrees with the new one is there afterwards.
    pub upsert-Any :
        (P : R → Type 0) (rows : List R)
        → P new
        → ((old : R) → same old new ≡ true → P (resolve act old new))
        → Any P (upsert same act new rows)
    upsert-Any P [] h k = inl h
    upsert-Any P (old ∷ rows) h k = elim (Bool-cases (same old new)) [
      | inl there ↦ rw there (inl (k old there))
      | inr other ↦ rw other (inr (upsert-Any P rows h k))
    ]

    -- If no row agrees with the new one, it is added.
    pub upsert-fresh :
        (P : R → Type 0) (rows : List R)
        → P new
        → All (λ r. same r new ≡ false) rows
        → Any P (upsert same act new rows)
    upsert-fresh P [] h fresh = inl h
    upsert-fresh P (old ∷ rows) h fresh = rw fresh.0 (inr (upsert-fresh P rows h fresh.1))

    -- Another property of some row survives if the change of the row that agrees keeps it.
    pub upsert-keeps-Any :
        (P : R → Type 0) (rows : List R)
        → ((old : R) → same old new ≡ true → P old → P (resolve act old new))
        → Any P rows
        → Any P (upsert same act new rows)
    upsert-keeps-Any P [] k h = elim h [ ]
    upsert-keeps-Any P (old ∷ rows) k h = elim (Bool-cases (same old new)) [
      | inl there ↦ rw there (first k there h)
      | inr other ↦ rw other (later (upsert-keeps-Any P rows k) h)
    ]
      where
        first :
            ((old : R) → same old new ≡ true → P old → P (resolve act old new))
            → same old new ≡ true
            → P old ⊎ Any P rows
            → P (resolve act old new) ⊎ Any P rows
        first k there (inl h) = inl (k old there h)
        first k there (inr h) = inr h

        later :
            (Any P rows → Any P (upsert same act new rows))
            → P old ⊎ Any P rows
            → P old ⊎ Any P (upsert same act new rows)
        later f (inl h) = inl h
        later f (inr h) = inr (f h)

    pub upsert-All :
        (P : R → Type 0) (rows : List R)
        → P new
        → ((old : R) → same old new ≡ true → P old → P (resolve act old new))
        → All P rows
        → All P (upsert same act new rows)
    upsert-All P [] h k all = (h, tt)
    upsert-All P (old ∷ rows) h k all = elim (Bool-cases (same old new)) [
      | inl there ↦ rw there (k old there all.0, all.1)
      | inr other ↦ rw other (all.0, upsert-All P rows h k all.1)
    ]

    -- No row is added if one agrees.
    pub length-upsert :
        (rows : List R)
        → Any (λ r. same r new ≡ true) rows
        → length (upsert same act new rows) ≡ length rows
    length-upsert [] h = elim h [ ]
    length-upsert (old ∷ rows) h = elim (Bool-cases (same old new)) [
      | inl there ↦ rw there refl
      | inr other ↦ rw other (ap suc (length-upsert rows (behind old rows other h)))
    ]
      where
        behind :
            (old : R) (rows : List R)
            → same old new ≡ false
            → Any (λ r. same r new ≡ true) (old ∷ rows)
            → Any (λ r. same r new ≡ true) rows
        behind old rows other (inl h) = absurd (ground (arith, other, h))
        behind old rows other (inr h) = h

module _ (pg : Postgres) {R : Type 0} where
  -- The rows after one row was inserted.
  pub rows-insert_one :
      (same : R → R → Bool) (act : OnConflict R) (new : R) (t : pg.Table R)
      → pg.rows (pg.insert same act (new ∷ []) t).1 ≡ upsert same act new (pg.rows t)
  rows-insert_one same do_nothing new t = pg.rows-insert same do_nothing (new ∷ []) t
  rows-insert_one same (do_update change) new t =
      pg.rows-insert same (do_update change) (new ∷ []) t

  pub insert_one_result :
      (same : R → R → Bool) (act : OnConflict R) (new : R) (t : pg.Table R)
      → (pg.insert same act (new ∷ []) t).0 ≡ ok tt
  insert_one_result same do_nothing new t = pg.insert_result same do_nothing (new ∷ []) t
  insert_one_result same (do_update change) new t =
      pg.insert_result same (do_update change) (new ∷ []) t

module _ {S A B : Type 0} where
  continue_ok :
      (r : Result A) (k : A → Exec S B) (s : S) (b : B)
      → (continue r k s).0 ≡ ok b
      → (a : A) × ((r ≡ ok a) × (continue r k s ≡ k a s))
  continue_ok (ok a) k s b h = (a, (refl, refl))
  continue_ok (raise e) k s b h = absurd (ground arith)

  -- A block that returns has returned from its first statement.
  pub bind_ok :
      (m : Exec S A) (k : A → Exec S B) (s : S) (b : B)
      → ((m >>= k) s).0 ≡ ok b
      → (a : A) × (((m s).0 ≡ ok a) × ((m >>= k) s ≡ k a (m s).1))
  bind_ok m k s b h = continue_ok (m s).0 k (m s).1 b h

module _ (env : ArchiveEnv) {A : Type 0} (f : Tables env.pg → Result A × Tables env.pg)
    (s : Session env) where
  execute_up :
      env.up s.sent ≡ true
      → execute env f s
        ≡ ((f s.working).0, record s { working = (f s.working).1; sent = s.sent + 1 })
  unfolding execute
  execute_up up = rw up refl

  execute_down :
      env.up s.sent ≡ false
      → execute env f s ≡ (raise database_error, record s { sent = s.sent + 1 })
  unfolding execute
  execute_down down = rw down refl

  -- A statement that goes through has mapped the tables.
  pub execute_ok :
      (a : A)
      → (execute env f s).0 ≡ ok a
      → ((execute env f s).1.working ≡ (f s.working).1) × ((f s.working).0 ≡ ok a)
  execute_ok a h = elim (Bool-cases (env.up s.sent)) [
    | inl up ↦ (
      ap (λ (e : Result A × Session env). e.1.working) (execute_up up),
      sym (ap (λ (e : Result A × Session env). e.0) (execute_up up)) ∙ h,
    )
    | inr down ↦ raised (sym (ap (λ (e : Result A × Session env). e.0) (execute_down down)) ∙ h)
  ]
    where
      raised : {P : Type 0} → raise database_error ≡ ok a → P
      raised h = absurd (ground arith)
