-- ===== src/Action/Along.antt =====
-- Actions that lead only to related states, for a relation that is reflexive and transitive: one
-- rule for each way to build an action.
use trash.Prelude.{Bool, true, false, if◌then◌else◌}
use trash.Exceptions.{Exception}
use trash.Runtime.{Runtime}
use trash.World.{Result, ok, err, World, Action}
use trash.Action.{try_catch, catch_with, pure, raise, continue, ◌>>=◌, ◌>>◌}

module _ ⦃rt : Runtime⦄ where
  pub record Preorder (R : World → World → Type 0) : Type 0 where
    pub same : (w : World) → R w w
    pub through : (u v w : World) → R u v → R v w → R u w

  pub record Along {ℓ} (R : World → World → Type 0) {A : Type ℓ} (m : Action A) : Type ℓ where
    pub at : (w : World) → R w (m w).1

  module _ {R : World → World → Type 0} (o : Preorder R) where
    pub Along-pure {ℓ} : {A : Type ℓ} (a : A) → Along R (pure a)
    Along-pure a = record { at = λ w. o.same w }

    pub Along-raise {ℓ} : {A : Type ℓ} (x : Exception) → Along R (raise {A = A} x)
    Along-raise x = record { at = λ w. o.same w }

    Along-continue {ℓ κ} :
        {A : Type ℓ} {B : Type κ} (f : A → Action B) (w : World) (r : Result A × World)
        → R w r.1
        → ((a : A) → Along R (f a))
        → R w (continue r f).1
    Along-continue f w (ok a, u) i k = o.through w u (f a u).1 i ((k a).at u)
    Along-continue f w (err x, u) i k = i

    pub Along-bind {ℓ κ} :
        {A : Type ℓ} {B : Type κ} (m : Action A) (f : A → Action B)
        → Along R m
        → ((a : A) → Along R (f a))
        → Along R (m >>= f)
    Along-bind m f c k = record { at = λ w. Along-continue f w (m w) (c.at w) k }

    pub Along-then {ℓ κ} :
        {A : Type ℓ} {B : Type κ} (m : Action A) (n : Action B)
        → Along R m
        → Along R n
        → Along R (m >> n)
    Along-then m n c d = Along-bind m (λ _. n) c (λ _. d)

    pub Along-if {ℓ} :
        {A : Type ℓ} (b : Bool) (m n : Action A)
        → Along R m
        → Along R n
        → Along R (if b then m else n)
    Along-if true m n c d = c
    Along-if false m n c d = d

    Along-catch {ℓ} :
        {A : Type ℓ} (h : Exception → Action A) (w : World) (r : Result A × World)
        → R w r.1
        → ((x : Exception) → Along R (h x))
        → R w (catch_with r h).1
    Along-catch h w (ok a, u) i k = i
    Along-catch h w (err x, u) i k = o.through w u (h x u).1 i ((k x).at u)

    pub Along-try {ℓ} :
        {A : Type ℓ} (m : Action A) (h : Exception → Action A)
        → Along R m
        → ((x : Exception) → Along R (h x))
        → Along R (try_catch m h)
    Along-try m h c k = record { at = λ w. Along-catch h w (m w) (c.at w) k }
