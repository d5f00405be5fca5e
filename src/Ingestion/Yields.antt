-- ===== src/Ingestion/Yields.antt =====
-- What holds whenever a chain of calls succeeds.
use edifact_parser.Base.{◌≡◌, refl, ap, ◌⊎◌, inl, inr}
use edifact_parser.Domain.{Result, ok, err}
use edifact_parser.Ingestion.Action.{Action, ◌>>=◌, continue, wrap, wrapped}

pub Result-cases :
    {E A : Type 0} (r : Result E A) → ((a : A) × (r ≡ ok a)) ⊎ ((e : E) × (r ≡ err e))
Result-cases (ok a) = inl (a, refl)
Result-cases (err e) = inr (e, refl)

pub ok-injective : {E A : Type 0} {a b : A} → ◌≡◌ {A = Result E A} (ok a) (ok b) → a ≡ b
ok-injective h = cc

-- Whenever the action succeeds from the state s, Q holds of its result and of the state it leaves.
abbrev pub Yields : {S E A : Type 0} → S → Action S E A → (A → S → Type 0) → Type 0
Yields {A = A} s m Q = (a : A) → (m s).0 ≡ ok a → Q a (m s).1

module _ {S E A B : Type 0} (f : A → Action S E B) (P : A → S → Type 0) (Q : B → S → Type 0) where
  Yields-continue :
      (r : Result E A) (t : S)
      → ((a : A) → r ≡ ok a → P a t)
      → ((a : A) (t : S) → P a t → Yields t (f a) Q)
      → (b : B) → (continue f r t).0 ≡ ok b
      → Q b (continue f r t).1
  Yields-continue (ok a) t h k b e = k a t (h a refl) b e
  Yields-continue (err x) t h k b e = cc

  pub Yields-bind :
      (s : S) (m : Action S E A)
      → Yields s m P
      → ((a : A) (t : S) → P a t → Yields t (f a) Q)
      → Yields s (m >>= f) Q
  Yields-bind s m h k = Yields-continue (m s).0 (m s).1 h k

pub wrap-ok : {E F A : Type 0} (f : E → F) (r : Result E A) (a : A) → wrap f r ≡ ok a → r ≡ ok a
wrap-ok f (ok x) a e = ap ok (ok-injective e)
wrap-ok f (err x) a e = cc

pub Yields-wrapped :
    {S E F A : Type 0} (f : E → F) (s : S) (m : Action S E A) (Q : A → S → Type 0)
    → Yields s m Q
    → Yields s (wrapped f m) Q
Yields-wrapped f s m Q h a e = h a (wrap-ok f (m s).0 a e)

module _ {S E : Type 0} (K : S → Type 0) where
  keeps-continue :
      {A B : Type 0} (f : A → Action S E B) (r : Result E A) (t : S)
      → K t
      → ((a : A) (u : S) → K u → K (f a u).1)
      → K (continue f r t).1
  keeps-continue f (ok a) t k h = h a t k
  keeps-continue f (err e) t k h = k

  -- A property of the state that each of two calls keeps.
  pub keeps-bind :
      {A B : Type 0} (m : Action S E A) (f : A → Action S E B) (s : S)
      → K (m s).1
      → ((a : A) (u : S) → K u → K (f a u).1)
      → K ((m >>= f) s).1
  keeps-bind m f s k h = keeps-continue f (m s).0 (m s).1 k h
