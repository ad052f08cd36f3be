-- ===== src/Spec/Polling/Freed.antt =====
-- The rows of `ReclaimExpiredLeases` of internal/persistence/persistence.go: which leases it ends.
use my_temp.Common.{
  ℕ, suc, String, String_eq, ℕ_eq, true, ◌≡◌, refl, inl, inr, List, [], ◌∷◌, none, some, map, keep,
  length, All, arith, Option-cases, Bool-cases,
}
use my_temp.Common.Int.{◌≤ℤ◌}
use my_temp.Common.Rows.{Rows, map-Rows}
use my_temp.Persistence.Types.{Time, Task}
use my_temp.Persistence.Tables.{is_expired, reclaim}
use my_temp.Persistence.Session.{Env, World}
use my_temp.Persistence.Ends.{Ends, Cause, Ends-mono}
use my_temp.Persistence.{reclaim_expired_leases}
use my_temp.Spec.Polling.{LeasesReclaimed, reclaim_expired_leases-LeasesReclaimed}

-- The lease of the task has run out.
abbrev pub IsOver : Time → Task → Type 0
IsOver now t =
    (owner : String) × (t.lease_owner ≡ some owner)
    × (at : Time) × (t.lease_expires_at ≡ some at)
    × ¬ (now ≤ℤ at)

abbrev pub Freed : Time → Task → Task → Type 0
Freed now t t' =
    (IsOver now t → t' ≡ record t { lease_owner = none; lease_expires_at = none })
    × (¬ IsOver now t → t' ≡ t)

is_expired-IsOver : (now : Time) (t : Task) → is_expired now t ≡ true → IsOver now t
is_expired-IsOver now t e = elim (Option-cases t.lease_owner) [
  | inl free ↦ ground (arith, free, e)
  | inr (owner, held) ↦ elim (Option-cases t.lease_expires_at) [
    | inl never ↦ ground (arith, held, never, e)
    | inr (at, until) ↦ (owner, held, at, until, λ early. ground (arith, held, until, e, early))
  ]
]

IsOver-is_expired : (now : Time) (t : Task) → IsOver now t → is_expired now t ≡ true
IsOver-is_expired now t (owner, held, at, until, late) = ground (arith, held, until, late)

reclaim-Freed : (now : Time) (t : Task) → Freed now t (reclaim now t)
unfolding reclaim
reclaim-Freed now t = (
  λ over. rw (IsOver-is_expired now t over) refl,
  λ going. elim (Bool-cases (is_expired now t)) [
    | inl over ↦ absurd (going (is_expired-IsOver now t over))
    | inr not_over ↦ rw not_over refl
  ],
)

reclaimed-not-IsOver : (now : Time) (t : Task) → ¬ IsOver now (reclaim now t)
unfolding reclaim
reclaimed-not-IsOver now t = elim (Bool-cases (is_expired now t)) [
  | inl over ↦ rw over (λ o. absurd (cc (o.1)))
  | inr not_over ↦ rw not_over (λ o. absurd (cc (IsOver-is_expired now t o, not_over)))
]

-- The leases of `n` of the rows have run out.
pub data CountsOver (now : Time) : ℕ → List Task → Type 0 where
  none_over : CountsOver now 0 []
  one_over :
      {n : ℕ} {t : Task} {ts : List Task}
      → IsOver now t
      → CountsOver now n ts
      → CountsOver now (suc n) (t ∷ ts)
  not_over :
      {n : ℕ} {t : Task} {ts : List Task}
      → ¬ IsOver now t
      → CountsOver now n ts
      → CountsOver now n (t ∷ ts)

keep-CountsOver :
    (now : Time) (ts : List Task) → CountsOver now (length (keep (is_expired now) ts)) ts
keep-CountsOver now [] = none_over
keep-CountsOver now (t ∷ ts) = elim (Bool-cases (is_expired now t)) [
  | inl over ↦ rw over (one_over (is_expired-IsOver now t over) (keep-CountsOver now ts))
  | inr going ↦
      rw going
        (not_over (λ o. absurd (cc (IsOver-is_expired now t o, going))) (keep-CountsOver now ts))
]

All-mapped :
    (P : Task → Type 0) (f : Task → Task) (ts : List Task)
    → ((t : Task) → P (f t))
    → All P (map f ts)
All-mapped P f [] h = tt
All-mapped P f (t ∷ ts) h = (h t, All-mapped P f ts h)

module _ (env : Env) (w : World) where
  abbrev now : Time
  now = env.db_clock w.calls

  pub record FreedLeases (n : ℕ) (w' : World) : Type 0 where
    pub count : CountsOver (env.db_clock w.calls) n w.db.tasks
    pub rows : Rows (Freed (env.db_clock w.calls)) w.db.tasks w'.db.tasks
    pub none_left : All (λ t. ¬ IsOver (env.db_clock w.calls) t) w'.db.tasks
    pub tables : w'.db ≡ record (w.db) { tasks = w'.db.tasks }

  LeasesReclaimed-FreedLeases : (n : ℕ) (w' : World) → LeasesReclaimed env w n w' → FreedLeases n w'
  LeasesReclaimed-FreedLeases n w' h = record {
    count = rw (h.rows) (keep-CountsOver now w.db.tasks);
    rows = rw (h.tables) (map-Rows (Freed now) (reclaim now) w.db.tasks (reclaim-Freed now));
    none_left =
        rw (h.tables)
          (All-mapped (λ t. ¬ IsOver now t) (reclaim now) w.db.tasks (reclaimed-not-IsOver now));
    tables = rw (h.tables) refl;
  }

  -- `ReclaimExpiredLeases` ends without an error with the number of tasks whose lease has run out before
  -- the database's present; each of these has lost its owner and its end, every other task is as it
  -- was, afterwards no task has a lease that has run out, and no other table has changed. It returns an
  -- error only because the call to the database failed.
  pub reclaim_expired_leases-FreedLeases :
      Ends (Cause env ⊥) FreedLeases (reclaim_expired_leases env) w
  reclaim_expired_leases-FreedLeases =
      Ends-mono (reclaim_expired_leases-LeasesReclaimed env w) LeasesReclaimed-FreedLeases
