-- ===== src/Redis.antt =====
-- The Redis server and its client library, which the program calls: a store with a clock, one
-- command of a pipeline, and what the documentation of SET, GET and DEL promises. Times are in
-- seconds. An expiry time of 0 is refused by the server ("invalid expire time").
use eve_api_cache.Base.{
  ℕ, ◌+◌, ◌≤◌, ◌≡◌, Bool, true, Option, none, some, List, [], ◌∷◌, if◌then◌else◌, ltb, Text, Bytes,
  text_eq, ◌&&◌,
}
use eve_api_cache.Base.Exec.{Result, ok, raise, redis_error}

-- A command that writes.
pub data Command : Type 0 where
  set : Text → Bytes → ℕ → Command
  delete : Text → Command

-- The value of key `j` at time `t` once the commands have run at time `now`, in their order, over
-- the value `old`: SET stores the value until `now + ex` and DEL removes it; a SET that is refused
-- leaves the key as it is.
abbrev pub value_after : ℕ → ℕ → Text → List Command → Option Bytes → Option Bytes
value_after now t j [] old = old
value_after now t j (set k v ex ∷ commands) old =
    value_after now t j commands
      (if text_eq k j && ltb 0 ex then (if ltb t (now + ex) then some v else none) else old)
value_after now t j (delete k ∷ commands) old =
    value_after now t j commands (if text_eq k j then none else old)

-- Every SET has a positive expiry time.
abbrev pub accepted : List Command → Bool
accepted [] = true
accepted (set k v ex ∷ commands) = ltb 0 ex && accepted commands
accepted (delete k ∷ commands) = accepted commands

pub record Redis : Type 1 where
  pub Store : Type 0
  -- `GET key` at a time; `none` where it is absent or has expired
  pub get : Store → ℕ → Text → Option Bytes
  -- `pipe.execute()` of a transaction at a time
  pub execute : List Command → ℕ → Store → Result (Unit {0}) × Store
  -- A transaction runs each of its commands, and raises the error of one that was refused.
  pub get-execute :
      (s : Store) (commands : List Command) (now t : ℕ) (j : Text)
      → now ≤ t
      → get (execute commands now s).1 t j ≡ value_after now t j commands (get s t j)
  pub execute_result :
      (s : Store) (commands : List Command) (now : ℕ)
      → (execute commands now s).0 ≡ (if accepted commands then ok tt else raise redis_error)
