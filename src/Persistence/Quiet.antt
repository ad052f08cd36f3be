-- ===== src/Persistence/Quiet.antt =====
-- Which actions leave the committed tables and the metrics alone.
pub mod Methods
use my_temp.Common.{String, Bool, true, false, ◌≡◌, refl, if◌then◌else◌, ◌∙◌, Option, arith}
use my_temp.Errors.{Error}
use my_temp.Metrics.{Metrics}
use my_temp.Persistence.Tables.{Db}
use my_temp.Persistence.Session.{
  Env, Tx, World, Result, ok, err, M, pure, raise, after, ◌>>=◌, ◌>>◌, wrapped, time_now, new_uuid,
  rand_float, pool_query, begin_tx, tx_query, tx_exec, commit, deferring_rollback, count,
}

-- The committed tables and the metrics of two worlds are the same.
pub record Same (w w' : World) : Type 0 where
  pub db : w'.db ≡ w.db
  pub metrics : w'.metrics ≡ w.metrics

pub Same-trans : {a b c : World} → Same a b → Same b c → Same a c
Same-trans p q = record { db = q.db ∙ p.db; metrics = q.metrics ∙ p.metrics }

-- `m` writes nothing that others can see, however it ends.
pub record IsQuiet {A : Type 0} (m : M A) : Type 0 where
  pub at : (w : World) → Same w (m w).1

abbrev pub Unchanged : {A : Type 0} → World → Result A × World → Type 0
Unchanged w (ok a, w') = Unit {0}
Unchanged w (err e, w') = Same w w'

-- If `m` returns an error, it has written nothing that others can see.
pub record IsAtomic {A : Type 0} (m : M A) : Type 0 where
  pub at : (w : World) → Unchanged w (m w)

abbrev pub Succeeds : {A : Type 0} → Result A × World → Type 0
Succeeds (ok a, w) = Unit {0}
Succeeds (err e, w) = ⊥

pub record IsInfallible {A : Type 0} (m : M A) : Type 0 where
  pub at : (w : World) → Succeeds (m w)

module _ {A B : Type 0} where
  after-quiet :
      (f : A → M B) (w : World) (r : Result A × World)
      → Same w r.1
      → ((a : A) → IsQuiet (f a))
      → Same w (after f r).1
  after-quiet f w (ok a, w') s q = Same-trans {b = w'} s ((q a).at w')
  after-quiet f w (err e, w') s q = s

  pub IsQuiet-bind :
      (m : M A) (f : A → M B) → IsQuiet m → ((a : A) → IsQuiet (f a)) → IsQuiet (m >>= f)
  unfolding ◌>>=◌
  IsQuiet-bind m f qm qf = record { at = λ w. after-quiet f w (m w) (qm.at w) qf }

  pub IsQuiet-then : (m : M A) (k : M B) → IsQuiet m → IsQuiet k → IsQuiet (m >> k)
  unfolding ◌>>◌
  IsQuiet-then m k qm qk = IsQuiet-bind m (λ _. k) qm (λ _. qk)

  after-atomic :
      (f : A → M B) (w : World) (r : Result A × World)
      → Same w r.1
      → ((a : A) → IsAtomic (f a))
      → Unchanged w (after f r)
  after-atomic f w (ok a, w') s q = weaken (f a w') ((q a).at w')
    where
      weaken : (r : Result B × World) → Unchanged w' r → Unchanged w r
      weaken (ok b, u) h = tt
      weaken (err e, u) h = Same-trans s h
  after-atomic f w (err e, w') s q = s

  pub IsAtomic-bind :
      (m : M A) (f : A → M B) → IsQuiet m → ((a : A) → IsAtomic (f a)) → IsAtomic (m >>= f)
  unfolding ◌>>=◌
  IsAtomic-bind m f qm qf = record { at = λ w. after-atomic f w (m w) (qm.at w) qf }

  pub IsAtomic-then : (m : M A) (k : M B) → IsQuiet m → IsAtomic k → IsAtomic (m >> k)
  unfolding ◌>>◌
  IsAtomic-then m k qm qk = IsAtomic-bind m (λ _. k) qm (λ _. qk)

  after-infallible :
      (f : A → M B) (w : World) (r : Result A × World)
      → Unchanged w r
      → ((a : A) → IsInfallible (f a))
      → Unchanged w (after f r)
  after-infallible f w (ok a, w') s q = succeed (f a w') ((q a).at w')
    where
      succeed : (r : Result B × World) → Succeeds r → Unchanged w r
      succeed (ok b, u) h = tt
      succeed (err e, u) h = absurd h
  after-infallible f w (err e, w') s q = s

  -- What follows the commit cannot fail.
  pub IsAtomic-last : (m : M A) (k : M B) → IsAtomic m → IsInfallible k → IsAtomic (m >> k)
  unfolding ◌>>◌ ◌>>=◌
  IsAtomic-last m k am ik = record {
    at = λ w. after-infallible (λ _. k) w (m w) (am.at w) (λ _. ik);
  }

module _ {A : Type 0} where
  pub IsQuiet-pure : (a : A) → IsQuiet (pure a)
  IsQuiet-pure a = record { at = λ w. record { db = refl; metrics = refl } }

  pub IsQuiet-raise : (e : Error) → IsQuiet (raise {A = A} e)
  IsQuiet-raise e = record { at = λ w. record { db = refl; metrics = refl } }

  pub IsQuiet-wrapped : (what : String) (m : M A) → IsQuiet m → IsQuiet (wrapped what m)
  unfolding wrapped
  IsQuiet-wrapped what m q = record { at = λ w. ground (arith, q.at w) }

  pub IsAtomic-wrapped : (what : String) (m : M A) → IsAtomic m → IsAtomic (wrapped what m)
  unfolding wrapped
  IsAtomic-wrapped what m q = record { at = λ w. ground (arith, q.at w) }

  pub IsAtomic-deferring_rollback : (m : M A) → IsAtomic m → IsAtomic (deferring_rollback m)
  unfolding deferring_rollback
  IsAtomic-deferring_rollback m q = record { at = λ w. ground (arith, q.at w) }

  pub IsAtomic-of_quiet : (m : M A) → IsQuiet m → IsAtomic m
  IsAtomic-of_quiet m q = record { at = λ w. quiet_end w (m w) (q.at w) }
    where
      quiet_end : (w : World) (r : Result A × World) → Same w r.1 → Unchanged w r
      quiet_end w (ok a, w') s = tt
      quiet_end w (err e, w') s = s

  pub IsAtomic-if : (b : Bool) (m k : M A) → IsAtomic m → IsAtomic k → IsAtomic (if b then m else k)
  IsAtomic-if true m k am ak = am
  IsAtomic-if false m k am ak = ak

  pub IsQuiet-if : (b : Bool) (m k : M A) → IsQuiet m → IsQuiet k → IsQuiet (if b then m else k)
  IsQuiet-if true m k am ak = am
  IsQuiet-if false m k am ak = ak

module _ (env : Env) where
  pub IsQuiet-time_now : IsQuiet (time_now env)
  unfolding time_now
  IsQuiet-time_now = record { at = λ w. ground arith }

  pub IsQuiet-new_uuid : IsQuiet (new_uuid env)
  unfolding new_uuid
  IsQuiet-new_uuid = record { at = λ w. ground arith }

  pub IsQuiet-rand_float : IsQuiet (rand_float env)
  unfolding rand_float
  IsQuiet-rand_float = record { at = λ w. ground arith }

  pub IsQuiet-pool_query : {A : Type 0} (f : Db → A) → IsQuiet (pool_query env f)
  unfolding pool_query
  IsQuiet-pool_query f = record { at = λ w. record { db = refl; metrics = refl } }

  pub IsQuiet-begin_tx : IsQuiet (begin_tx env)
  unfolding begin_tx
  IsQuiet-begin_tx = record { at = λ w. ground arith }

  pub IsQuiet-tx_query : {A : Type 0} (f : Tx → A) → IsQuiet (tx_query env f)
  unfolding tx_query
  IsQuiet-tx_query f = record { at = λ w. record { db = refl; metrics = refl } }

  pub IsQuiet-tx_exec : (f : Tx → Option Db) → IsQuiet (tx_exec env f)
  unfolding tx_exec
  IsQuiet-tx_exec f = record { at = λ w. ground arith }

  pub IsAtomic-commit : IsAtomic (commit env)
  unfolding commit
  IsAtomic-commit = record { at = λ w. ground arith }

pub IsInfallible-count : (f : Metrics → Metrics) → IsInfallible (count f)
unfolding count
IsInfallible-count f = record { at = λ w. tt }

pub IsInfallible-pure : {A : Type 0} (a : A) → IsInfallible (pure a)
IsInfallible-pure a = record { at = λ w. tt }

after-Succeeds :
    {A B : Type 0} (k : M B) (r : Result A × World)
    → Succeeds r
    → IsInfallible k
    → Succeeds (after (λ _. k) r)
after-Succeeds k (ok a, w') h q = q.at w'
after-Succeeds k (err e, w') h q = h

pub IsInfallible-then :
    {A B : Type 0} (m : M A) (k : M B) → IsInfallible m → IsInfallible k → IsInfallible (m >> k)
unfolding ◌>>◌ ◌>>=◌
IsInfallible-then m k im ik = record { at = λ w. after-Succeeds k (m w) (im.at w) ik }

pub ruleset quiet_rules = (
  IsQuiet-bind, IsQuiet-then, IsQuiet-if, IsQuiet-pure, IsQuiet-raise, IsQuiet-wrapped,
  IsQuiet-time_now, IsQuiet-new_uuid, IsQuiet-rand_float, IsQuiet-begin_tx,
)

pub ruleset atomic_rules = (
  quiet_rules, IsAtomic-bind, IsAtomic-then, IsAtomic-if, IsAtomic-wrapped,
  IsAtomic-deferring_rollback, IsAtomic-commit, IsInfallible-count, IsInfallible-pure,
  IsInfallible-then,
)

pub IsAtomic-of_infallible :
    {A B : Type 0} (m : M A) (f : A → M B)
    → IsAtomic m
    → ((a : A) → IsInfallible (f a))
    → IsAtomic (m >>= f)
unfolding ◌>>=◌
IsAtomic-of_infallible m f am q = record { at = λ w. after-infallible f w (m w) (am.at w) q }
