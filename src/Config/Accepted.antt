-- ===== src/Config/Accepted.antt =====
-- Which configurations `Load` accepts.
use edifact_parser.Base.{
  ℕ, ◌≤◌, Bool, true, false, List, [], ◌∷◌, ◌++◌, Bytes, length, ◌==◌, ◌≡◌, ◌≢◌, ◌↔◌, refl, arith,
  ap, sym, ◌∙◌,
}
use edifact_parser.Parser.State.{ℤ, pos, negsuc}
use mathlib.Core.Path.{subst}
use edifact_parser.Ingestion.Yields.{ok-injective}
use edifact_parser.Domain.{Result, ok, err}
use edifact_parser.Domain.Entities.{below_one}
use edifact_parser.Config.{
  Config, ConfigError, max_port, out_of_range, error_if, validate, validated, load, server_port,
  database_port, pool_size, no_brokers,
}

-- The port is one of TCP's.
abbrev pub IsPort : ℤ → Type 0
IsPort p = (n : ℕ) × (p ≡ pos n) × (1 ≤ n) × (n ≤ max_port)

pub record IsValid (c : Config) : Type 0 where
  pub server_is : IsPort c.server.port
  pub database_is : IsPort c.database.port
  pub pool_is : (n : ℕ) × (c.database.pool_size ≡ pos n) × (1 ≤ n)
  pub brokers_are : c.kafka.brokers ≢ []

out_of_range-IsPort : (p : ℤ) → (out_of_range p ≡ false) ↔ IsPort p
out_of_range-IsPort (pos n) = (
  λ h. (n, refl, ground (arith, h), ground (arith, h)),
  λ (m, e, low, high). let same : n ≡ m = cc in ground (arith, same, low, high),
)
out_of_range-IsPort (negsuc n) = (λ h. cc, λ (m, e, _, _). cc)

below_one-positive : (p : ℤ) → (below_one p ≡ false) ↔ ((n : ℕ) × (p ≡ pos n) × (1 ≤ n))
below_one-positive (pos n) = (
  λ h. (n, refl, ground (arith, h)),
  λ (m, e, low). let same : n ≡ m = cc in ground (arith, same, low),
)
below_one-positive (negsuc n) = (λ h. cc, λ (m, e, _). cc)

no_broker : (brokers : List Bytes) → ((length brokers == 0) ≡ false) ↔ (brokers ≢ [])
no_broker [] = (λ h. cc, λ h. absurd (h refl))
no_broker (b ∷ bs) = (λ h e. cc, λ h. ground arith)

error_if-nil : (b : Bool) (e : ConfigError) → error_if b e ≡ [] → b ≡ false
error_if-nil true e h = cc
error_if-nil false e h = refl

append-nils : (xs ys : List ConfigError) → xs ++ ys ≡ [] → (xs ≡ []) × (ys ≡ [])
append-nils [] ys h = (refl, h)
append-nils (x ∷ xs) ys h = cc

-- No error is joined exactly when every part of the configuration is in range.
validate-IsValid : (c : Config) → (validate c ≡ []) ↔ IsValid c
unfolding validate
validate-IsValid c = (
  λ h.
      let (abc, d) = append-nils _ (error_if (length c.kafka.brokers == 0) no_brokers) h in
      let (ab, p) =
        append-nils _ (error_if (below_one c.database.pool_size) (pool_size c.database.pool_size))
          abc in
      let (a, b) =
        append-nils (error_if (out_of_range c.server.port) (server_port c.server.port))
          (error_if (out_of_range c.database.port) (database_port c.database.port)) ab in
      record {
        server_is = (out_of_range-IsPort c.server.port).0 (error_if-nil _ _ a);
        database_is = (out_of_range-IsPort c.database.port).0 (error_if-nil _ _ b);
        pool_is = (below_one-positive c.database.pool_size).0 (error_if-nil _ _ p);
        brokers_are = (no_broker c.kafka.brokers).0 (error_if-nil _ _ d);
      },
  λ v.
      rw
        (
          (out_of_range-IsPort c.server.port).1 v.server_is,
          (out_of_range-IsPort c.database.port).1 v.database_is,
          (below_one-positive c.database.pool_size).1 v.pool_is,
          (no_broker c.kafka.brokers).1 v.brokers_are,
        )
        refl,
)

validated-ok : (c d : Config) (es : List ConfigError) → validated c es ≡ ok d → (c ≡ d) × (es ≡ [])
validated-ok c d [] h = (ok-injective h, refl)
validated-ok c d (e ∷ es) h = cc

-- `Load` returns a configuration exactly when the environment gave it, both ports lie between 1 and
-- 65535, the pool has at least one connection, and there is a broker.
pub load-ok_iff :
    (r : Result Bytes Config) (c : Config) → (load r ≡ ok c) ↔ ((r ≡ ok c) × IsValid c)
unfolding load
load-ok_iff (err e) c = (λ h. cc, λ (h, _). cc)
load-ok_iff (ok d) c = (
  λ h.
      let (same, none_joined) = validated-ok d c (validate d) h in
      (ap ok same, subst IsValid same ((validate-IsValid d).0 none_joined)),
  λ (h, v).
      let same : c ≡ d = sym (ok-injective h) in
      ap (validated d) ((validate-IsValid d).1 (subst IsValid same v)) ∙ ap ok (ok-injective h),
)
