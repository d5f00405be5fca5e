-- ===== src/Ingestion/Action.antt =====
-- Calls that act on the state behind the ports and may fail, one after the other.
use edifact_parser.Domain.{Result, ok, err}

abbrev pub Action : Type 0 → Type 0 → Type 0 → Type 0
Action S E A = S → Result E A × S

module _ {S E : Type 0} where
  abbrev pub pure : {A : Type 0} → Result E A → Action S E A
  pure r s = (r, s)

  -- What follows a call that returned `r` and left the state `t`.
  abbrev pub continue : {A B : Type 0} → (A → Action S E B) → Result E A → S → Result E B × S
  continue f (ok a) t = f a t
  continue f (err e) t = (err e, t)

  -- The Go idiom `x, err := f(); if err != nil { return …, err }`: what follows runs only on success.
  infixl 5 ◌>>=◌
  abbrev pub ◌>>=◌ : {A B : Type 0} → Action S E A → (A → Action S E B) → Action S E B
  (m >>= f) s = let (r, t) = m s in continue f r t

  -- The state a call leaves, its result dropped: `_ = f()`.
  abbrev pub after : {A : Type 0} → Action S E A → S → S
  after m s = (m s).1

-- `fmt.Errorf("…: %w", err)`
abbrev pub wrap : {E F A : Type 0} → (E → F) → Result E A → Result F A
wrap f (ok a) = ok a
wrap f (err e) = err (f e)

-- A call whose error is wrapped.
abbrev pub wrapped : {S E F A : Type 0} → (E → F) → Action S E A → Action S F A
wrapped f m s = let (r, t) = m s in (wrap f r, t)
