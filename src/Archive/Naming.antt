-- ===== src/Archive/Naming.antt =====
-- What `get_name` of app/cache.py gives after `write_names` of app/archive.py.
use eve_api_cache.Base.{
  ℕ, ◌+◌, ◌≤◌, ◌≡◌, refl, ap, sym, ◌∙◌, false, Option, none, some, List, [], ◌∷◌, ◌++◌, map, All,
  if◌then◌else◌, ltb, Text, Bytes, text_eq, text_eq_refl, arith, Bool-cases, inl, inr,
}
use eve_api_cache.Base.Exec.{Exec, Result, ok, raise, pure, ◌>>=◌, ◌>>◌}
use eve_api_cache.Base.Ints.{ℤ}
use eve_api_cache.Json.{Value}
use eve_api_cache.Redis.{Redis, value_after}
use eve_api_cache.Cache.Client.{name_key}
use eve_api_cache.Cache.Names.{get_name, set_names, loaded, name_command, name_value}
use eve_api_cache.Archive.Batches.{chunks, flatten, chunks-flatten}
use eve_api_cache.Archive.Mappings.{Mapping}
use eve_api_cache.Archive.Tables.{Tables, IdNameCache}
use eve_api_cache.Archive.Sessions.{ArchiveEnv, Session, execute, commit}
use eve_api_cache.Archive.Orders.{answer}
use eve_api_cache.Archive.Rows.{bind_ok, execute_ok}
use eve_api_cache.Archive.Names.{
  name_row, and_rows, name_rows, or_unknown, name_item, name_ttl, put_names, insert_names,
  on_session, on_store, write_mappings, of_data, write_names,
}

and_rows_ok :
    (r : Result IdNameCache) (rest : Result (List IdNameCache)) (rows : List IdNameCache)
    → and_rows r rest ≡ ok rows
    → (row : IdNameCache) × ((rows' : List IdNameCache) × ((r ≡ ok row)
          × ((rest ≡ ok rows') × (row ∷ rows' ≡ rows))))
and_rows_ok (raise e) rest rows h = absurd (ground arith)
and_rows_ok (ok row) (raise e) rows h = absurd (ground arith)
and_rows_ok (ok row) (ok rows') rows h = (row, (rows', (refl, (refl, ground arith))))

name_rows-append :
    (ds : Text) (now : ℕ) (b c : List Mapping) (rows rows' : List IdNameCache)
    → name_rows ds now b ≡ ok rows
    → name_rows ds now c ≡ ok rows'
    → name_rows ds now (b ++ c) ≡ ok (rows ++ rows')
unfolding name_rows
name_rows-append ds now [] c rows rows' h k =
    let empty : [] ≡ rows = ground (arith, h) in
    k ∙ ap (λ (x : List IdNameCache). ok (x ++ rows')) empty
name_rows-append ds now (m ∷ b) c rows rows' h k =
    let (row, (rest, (first, (others, same)))) =
      and_rows_ok (name_row ds now m) (name_rows ds now b) rows h in
    rw (first, name_rows-append ds now b c rest rows' others k)
      (ap (λ (x : List IdNameCache). ok (x ++ rows')) same)

module _ (env : ArchiveEnv) (ds : Text) (now : ℕ) where
  open env use {pg, json}

  answer_ok : {A : Type 0} (r : Result (Unit {0})) (a b : A) → answer r a ≡ ok b → a ≡ b
  answer_ok (ok done) a b h = ground arith
  answer_ok (raise e) a b h = absurd (ground arith)

  put_names_ok :
      (r : Result (List IdNameCache)) (t : Tables pg) (rows : List IdNameCache)
      → (put_names env r t).0 ≡ ok rows
      → r ≡ ok rows
  put_names_ok (raise e) t rows h = absurd (ground arith)
  put_names_ok (ok rows') t rows h = ap ok (answer_ok _ rows' rows h)

  -- The rows that were inserted are those of the mappings.
  insert_names_ok :
      (batches : List (List Mapping)) (s : Session env) (rows : List IdNameCache)
      → (insert_names env ds now batches s).0 ≡ ok rows
      → name_rows ds now (flatten batches) ≡ ok rows
  unfolding insert_names
  insert_names_ok [] s rows h = unfold name_rows in h
  insert_names_ok (b ∷ batches) s rows h =
      let first : Exec (Session env) (List IdNameCache) =
        execute env (put_names env (name_rows ds now b)) in
      let (r, (e, same)) =
        bind_ok first (λ rows. insert_names env ds now batches >>= λ rest. pure (rows ++ rest)) s
          rows h in
      let (r', (e', same')) =
        bind_ok (insert_names env ds now batches) (λ rest. pure (r ++ rest)) (first s).1 rows
          (sym (ap (λ (end : Result (List IdNameCache) × Session env). end.0) same) ∙ h) in
      name_rows-append ds now b (flatten batches) r r'
        (put_names_ok (name_rows ds now b) s.working r
          (execute_ok env (put_names env (name_rows ds now b)) s r e).1)
        (insert_names_ok batches (first s).1 r' e')
      ∙ (sym (ap (λ (end : Result (List IdNameCache) × Session env). end.0) (same ∙ same')) ∙ h)

  module _ (redis : Redis) (row : IdNameCache) (clock t : ℕ) where
    abbrev named : Value
    named = name_value row.entity_name (some (or_unknown row.category))

    abbrev key : Text
    key = name_key ds row.entity_id

    abbrev lasting : Option Bytes
    lasting = if ltb t (clock + name_ttl) then some (json.dumps named) else none

    abbrev commands : List IdNameCache → Option Bytes → Option Bytes
    commands rows old =
        value_after clock t key (map (name_command redis json ds name_ttl) (map name_item rows)) old

    -- Names of other keys do not change what is there.
    commands_other :
        (rows : List IdNameCache) (old : Option Bytes)
        → All (λ r. text_eq (name_key ds r.entity_id) key ≡ false) rows
        → commands rows old ≡ old
    commands_other [] old h = refl
    commands_other (r ∷ rows) old h = rw h.0 (commands_other rows old h.1)

    commands_last :
        (before after : List IdNameCache) (old : Option Bytes)
        → All (λ r. text_eq (name_key ds r.entity_id) key ≡ false) after
        → commands (before ++ row ∷ after) old ≡ lasting
    commands_last [] after old h = rw (text_eq_refl key) (commands_other after lasting h)
    commands_last (r ∷ before) after old h = commands_last before after _ h

    set_names-get :
        (items : List (ℤ × (Text × Option Text))) (store : redis.Store)
        → clock ≤ t
        → redis.get (set_names redis json ds items name_ttl clock store).1 t key
          ≡ value_after clock t key
              (map (name_command redis json ds name_ttl) items)
              (redis.get store t key)
    unfolding set_names
    set_names-get [] store later = refl
    set_names-get (item ∷ items) store later =
        redis.get-execute store (map (name_command redis json ds name_ttl) (item ∷ items)) clock t
          key later

    loaded-lasting :
        json.loads (json.dumps named) ≡ some named
        → loaded redis json lasting ≡ (if ltb t (clock + name_ttl) then some named else none)
    loaded-lasting reads = elim (Bool-cases (ltb t (clock + name_ttl))) [
      | inl within ↦ rw within reads
      | inr past ↦ rw past refl
    ]

    get_name-set_names :
        (rows before after : List IdNameCache) (store : redis.Store)
        → rows ≡ before ++ row ∷ after
        → All (λ r. text_eq (name_key ds r.entity_id) key ≡ false) after
        → clock ≤ t
        → json.loads (json.dumps named) ≡ some named
        → get_name redis json ds row.entity_id t
            (set_names redis json ds (map name_item rows) name_ttl clock store).1
          ≡ (if ltb t (clock + name_ttl) then some named else none)
    unfolding get_name
    get_name-set_names rows before after store same last later reads =
        ap (loaded redis json) (
          set_names-get (map name_item rows) store later
          ∙ (ap (λ rows. commands rows (redis.get store t key)) same
              ∙ commands_last before after (redis.get store t key) last))
        ∙ loaded-lasting reads

    -- What is left in the store when the statements of the names have returned.
    stored_names :
        (m : Mapping) (ms : List Mapping) (s : Session env × redis.Store)
        → (write_mappings env redis ds (m ∷ ms) now clock s).0 ≡ ok tt
        → (rows : List IdNameCache) × ((name_rows ds now (m ∷ ms) ≡ ok rows)
            × ((write_mappings env redis ds (m ∷ ms) now clock s).1.1
                ≡ (set_names redis json ds (map name_item rows) name_ttl clock s.1).1))
    unfolding write_mappings
    stored_names m ms s h =
        let batches = chunks (m ∷ ms) 1000 in
        let cache : List IdNameCache → Exec (Session env × redis.Store) (Unit {0}) = λ rows.
          on_store env redis (set_names redis json ds (map name_item rows) name_ttl clock) in
        let (rows, (e, same)) =
          bind_ok (on_session env redis (insert_names env ds now batches))
            (λ rows. cache rows >> on_session env redis (commit env)) s tt h in
        let (done, (e', same')) =
          bind_ok (cache rows) (λ _. on_session env redis (commit env))
            (on_session env redis (insert_names env ds now batches) s).1 tt
            (sym (ap (λ (end : Result (Unit {0}) × (Session env × redis.Store)). end.0) same)
              ∙ h) in
        (
          rows,
          (
            ap (name_rows ds now) (sym (chunks-flatten (m ∷ ms) 999).0)
                ∙ insert_names_ok batches s.0 rows e,
            ap (λ (end : Result (Unit {0}) × (Session env × redis.Store)). end.1.1) (same ∙ same'),
          ),
        )

    mapped_names :
        (ms : List Mapping) (before after : List IdNameCache) (s : Session env × redis.Store)
        → name_rows ds now ms ≡ ok (before ++ row ∷ after)
        → All (λ r. text_eq (name_key ds r.entity_id) key ≡ false) after
        → clock ≤ t
        → json.loads (json.dumps named) ≡ some named
        → (write_mappings env redis ds ms now clock s).0 ≡ ok tt
        → get_name redis json ds row.entity_id t (write_mappings env redis ds ms now clock s).1.1
          ≡ (if ltb t (clock + name_ttl) then some named else none)
    mapped_names [] before after s built last later reads returned =
        absurd (no_rows before (unfold name_rows in built))
      where
        no_rows : (before : List IdNameCache) → ok [] ≡ ok (before ++ row ∷ after) → ⊥
        no_rows [] h = absurd (ground (arith, h))
        no_rows (r ∷ before) h = absurd (ground (arith, h))
    mapped_names (m ∷ ms) before after s built last later reads returned =
        let (rows, (made, left)) = stored_names m ms s returned in
        let same : ok rows ≡ ok (before ++ row ∷ after) = sym made ∙ built in
        ap (get_name redis json ds row.entity_id t) left
        ∙ get_name-set_names rows before after s.1 (ground (arith, same)) last later reads

  -- The mappings of a payload make the rows `before ++ row ∷ after`, no row after `row` is for the
  -- same key, `json.loads` reads what `json.dumps` writes for the name, and `write_names` returns.
  -- Then `get_name` gives the name and the category of `row`, "unknown" for a missing one, for 86400
  -- seconds from the time of the write, and nothing from then on.
  pub get_name-write_names :
      (redis : Redis) (payload : Bytes) (before after : List IdNameCache) (row : IdNameCache)
      (clock t : ℕ) (s : Session env × redis.Store)
      → name_rows ds now (of_data env redis (json.loads payload)) ≡ ok (before ++ row ∷ after)
      → All (λ r. text_eq (name_key ds r.entity_id) (name_key ds row.entity_id) ≡ false) after
      → clock ≤ t
      → json.loads (json.dumps (name_value row.entity_name (some (or_unknown row.category))))
        ≡ some (name_value row.entity_name (some (or_unknown row.category)))
      → (write_names env redis ds payload now clock s).0 ≡ ok tt
      → get_name redis json ds row.entity_id t (write_names env redis ds payload now clock s).1.1
        ≡ (if ltb t (clock + 86400)
            then some (name_value row.entity_name (some (or_unknown row.category)))
            else none)
  unfolding write_names
  get_name-write_names redis payload before after row clock t s built last later reads returned =
      mapped_names redis row clock t (of_data env redis (json.loads payload)) before after s built
        last later reads returned
