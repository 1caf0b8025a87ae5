-- ===== src/Base/Returns.antt =====
-- Code that returns, from whatever state it starts.
use mathlib.Core.Path.{◌≡◌, refl}
use mathlib.Core.Bool.{Bool, true, false}
use native.Mathlib.Omega.{arith}
use eve_api_cache.Base.Tests.{if◌then◌else◌}
use eve_api_cache.Base.Exec.{Exec, Result, ok, raise, pure, continue, when, ◌>>=◌, ◌>>◌}

pub record Returns {S A : Type 0} (m : Exec S A) : Type 0 where
  pub at : (s : S) → (a : A) × ((m s).0 ≡ ok a)

module _ {S A : Type 0} where
  pub pure-Returns : (a : A) → Returns (pure {S = S} a)
  pure-Returns a = record { at = λ s. (a, refl) }

  pub if-Returns :
      (b : Bool) {m : Exec S A} (n : Exec S A) → b ≡ true → Returns m → Returns (if b then m else n)
  if-Returns true n there h = h
  if-Returns false n there h = absurd (ground (arith, there))

  pub either-Returns :
      (b : Bool) {m n : Exec S A} → Returns m → Returns n → Returns (if b then m else n)
  either-Returns true h k = h
  either-Returns false h k = k

module _ {S : Type 0} where
  pub when-Returns :
      (b : Bool) {m : Exec S (Unit {0})} → (b ≡ true → Returns m) → Returns (when b m)
  when-Returns true h = h refl
  when-Returns false h = pure-Returns tt

module _ {S A B : Type 0} where
  continue-Returns :
      (r : Result A) (k : A → Exec S B) (s : S)
      → (a : A) × (r ≡ ok a)
      → ((a : A) → Returns (k a))
      → (b : B) × ((continue r k s).0 ≡ ok b)
  continue-Returns (ok a) k s h all = (all a).at s
  continue-Returns (raise e) k s h all = absurd (ground (arith, h.1))

  pub bind-Returns :
      {m : Exec S A} {k : A → Exec S B} → Returns m → ((a : A) → Returns (k a)) → Returns (m >>= k)
  bind-Returns {m} {k} h all = record { at = λ s. continue-Returns (m s).0 k (m s).1 (h.at s) all }

  pub then-Returns : {m : Exec S A} {n : Exec S B} → Returns m → Returns n → Returns (m >> n)
  then-Returns h k = bind-Returns h (λ _. k)
