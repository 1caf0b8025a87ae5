-- ===== src/Base/Keeps.antt =====
-- A property of the state that code keeps, whether it returns or raises.
use mathlib.Core.Bool.{Bool, true, false}
use eve_api_cache.Base.Tests.{if◌then◌else◌}
use eve_api_cache.Base.Exec.{
  Exec, Error, Result, ok, raise, pure, throw, continue, when, ◌>>=◌, ◌>>◌,
}

pub record Keeps {S A : Type 0} (P : S → Type 0) (m : Exec S A) : Type 0 where
  pub at : (s : S) → P s → P (m s).1

module _ {S A : Type 0} {P : S → Type 0} where
  pub pure-Keeps : (a : A) → Keeps P (pure {S = S} a)
  pure-Keeps a = record { at = λ s h. h }

  pub throw-Keeps : (e : Error) → Keeps P (throw {S = S} {A = A} e)
  throw-Keeps e = record { at = λ s h. h }

module _ {S A B : Type 0} {P : S → Type 0} where
  pub continue-Keeps :
      (r : Result A) (k : A → Exec S B) (s : S)
      → P s
      → ((a : A) → Keeps P (k a))
      → P (continue r k s).1
  continue-Keeps (ok a) k s h all = (all a).at s h
  continue-Keeps (raise e) k s h all = h

  pub bind-Keeps :
      {m : Exec S A} {k : A → Exec S B} → Keeps P m → ((a : A) → Keeps P (k a)) → Keeps P (m >>= k)
  bind-Keeps {m} {k} h all = record { at = λ s p. continue-Keeps (m s).0 k (m s).1 (h.at s p) all }

  pub then-Keeps : {m : Exec S A} {n : Exec S B} → Keeps P m → Keeps P n → Keeps P (m >> n)
  then-Keeps h k = bind-Keeps h (λ _. k)

module _ {S : Type 0} {P : S → Type 0} where
  pub when-Keeps : (b : Bool) {m : Exec S (Unit {0})} → Keeps P m → Keeps P (when b m)
  when-Keeps true h = h
  when-Keeps false h = pure-Keeps tt

module _ {S A : Type 0} {P : S → Type 0} where
  pub if-Keeps : (b : Bool) {m n : Exec S A} → Keeps P m → Keeps P n → Keeps P (if b then m else n)
  if-Keeps true h k = h
  if-Keeps false h k = k

pub ruleset keeps_rules = (pure-Keeps, throw-Keeps, bind-Keeps, then-Keeps, when-Keeps)
