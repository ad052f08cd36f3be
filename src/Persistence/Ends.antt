-- ===== src/Persistence/Ends.antt =====
-- What holds when an action returns without an error: a rule for each way to build an action.
use my_temp.Common.{ℕ, String, Bool, true, false, if◌then◌else◌, ◌≡◌, refl, none, some}
use my_temp.Errors.{Error}
use my_temp.Metrics.{Metrics}
use my_temp.Persistence.Types.{Time}
use my_temp.Persistence.Tables.{Db}
use my_temp.Persistence.Session.{
  Env, World, Result, ok, err, M, pure, raise, after, relabel, close_tx, ◌>>=◌, ◌>>◌, wrapped,
  deferring_rollback, count,
}

abbrev pub Holds : {A : Type 0} → Type 0 → (A → World → Type 0) → Result A × World → Type 0
Holds F Q (ok a, w) = Q a w
Holds F Q (err e, w) = F

-- If `m` returns no error from `w`, then `Q` holds of the value and of the world that is left; if it
-- returns an error, then `F` holds: the error had one of the causes that `F` lists.
pub record Ends {A : Type 0} (F : Type 0) (Q : A → World → Type 0) (m : M A) (w : World)
    : Type 0 where
  pub at : Holds F Q (m w)

-- Why an operation returns an error: a call to the database failed, or it was refused for a reason
-- of its own.
pub data Cause (env : Env) (R : Type 0) : Type 0 where
  fault : (n : ℕ) (text : String) → env.fault n ≡ some text → Cause env R
  refused : R → Cause env R

-- A database call that fails is among the causes.
abbrev pub Excuse : Env → Type 0 → Type 0
Excuse env F = (n : ℕ) (text : String) → env.fault n ≡ some text → F

-- The world while a transaction is open.
abbrev pub in_tx : Db → Metrics → ℕ → Time → Db → World
in_tx db metrics calls now view = record {
  db = db;
  tx = some (record { view = view; now = now });
  metrics = metrics;
  calls = calls;
}

module _ {A B : Type 0} where
  Holds-after :
      (F : Type 0) (f : A → M B) (Q : B → World → Type 0) (r : Result A × World)
      → Holds F (λ a w. Ends F Q (f a) w) r
      → Holds F Q (after f r)
  Holds-after F f Q (ok a, w) h = h.at
  Holds-after F f Q (err e, w) h = h

  pub Ends-bind :
      {F : Type 0} {Q : B → World → Type 0} (m : M A) (f : A → M B) {w : World}
      → Ends F (λ a w'. Ends F Q (f a) w') m w
      → Ends F Q (m >>= f) w
  unfolding ◌>>=◌
  Ends-bind {F} {Q} m f {w} h = record { at = Holds-after F f Q (m w) h.at }

  pub Ends-then :
      {F : Type 0} {Q : B → World → Type 0} (m : M A) (k : M B) {w : World}
      → Ends F (λ a w'. Ends F Q k w') m w
      → Ends F Q (m >> k) w
  unfolding ◌>>◌ ◌>>=◌
  Ends-then {F} {Q} m k {w} h = record { at = Holds-after F (λ _. k) Q (m w) h.at }

module _ {A : Type 0} (F : Type 0) (Q : A → World → Type 0) where
  Holds-relabel : (g : Error → Error) (r : Result A × World) → Holds F Q r → Holds F Q (relabel g r)
  Holds-relabel g (ok a, w) h = h
  Holds-relabel g (err e, w) h = h

  Holds-close :
      (r : Result A × World)
      → Holds F (λ a w. Q a (record w { tx = none })) r
      → Holds F Q (close_tx r)
  Holds-close (ok a, w) h = h
  Holds-close (err e, w) h = h

module _ {A : Type 0} {F : Type 0} {Q : A → World → Type 0} where
  pub Ends-pure : (a : A) {w : World} → Q a w → Ends F Q (pure a) w
  Ends-pure a h = record { at = h }

  pub Ends-raise : (e : Error) {w : World} → F → Ends F Q (raise {A = A} e) w
  Ends-raise e h = record { at = h }

  pub Ends-wrapped :
      (what : String) (m : M A) {w : World} → Ends F Q m w → Ends F Q (wrapped what m) w
  unfolding wrapped
  Ends-wrapped what m {w} h = record { at = Holds-relabel F Q _ (m w) h.at }

  pub Ends-rollback :
      (m : M A) {w : World}
      → Ends F (λ a w'. Q a (record w' { tx = none })) m w
      → Ends F Q (deferring_rollback m) w
  unfolding deferring_rollback
  Ends-rollback m {w} h = record { at = Holds-close F Q (m w) h.at }

  pub Ends-if :
      (b : Bool) (m k : M A) {w : World}
      → (b ≡ true → Ends F Q m w)
      → (b ≡ false → Ends F Q k w)
      → Ends F Q (if b then m else k) w
  Ends-if true m k f g = f refl
  Ends-if false m k f g = g refl

module _ {A : Type 0} where
  Holds-mono :
      (F G : Type 0) {P Q : A → World → Type 0} (r : Result A × World)
      → (F → G)
      → ((a : A) (w : World) → P a w → Q a w)
      → Holds F P r
      → Holds G Q r
  Holds-mono F G (ok a, w) g f h = f a w h
  Holds-mono F G (err e, w) g f h = g h

  -- A weaker postcondition, and other causes.
  pub Ends-mono :
      {F : Type 0} {P Q : A → World → Type 0} {m : M A} {w : World}
      → Ends F P m w
      → ((a : A) (w' : World) → P a w' → Q a w')
      → Ends F Q m w
  Ends-mono {F} {m = m} {w = w} h f = record { at = Holds-mono F F (m w) (λ x. x) f h.at }

pub Ends-count :
    {F : Type 0} {Q : Unit {0} → World → Type 0} (f : Metrics → Metrics) {w : World}
    → Q tt (record w { metrics = f w.metrics })
    → Ends F Q (count f) w
unfolding count
Ends-count f h = record { at = h }
