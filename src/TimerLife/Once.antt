-- ===== src/TimerLife/Once.antt =====
-- Timers that `ScanTimers` of internal/history/history.go has fired, and later scans.
use my_temp.Common.{
  ℕ, zero, suc, ◌<◌, Bool, true, not, ◌&&◌, ◌≡◌, List, [], ◌∷◌, All, All-keep, All-mono, keep, take,
  arith,
}
use my_temp.Persistence.Types.{Time, Timer}
use my_temp.Persistence.Tables.{Db, due_timers, is_due}
use my_temp.Persistence.Session.{Env, World}
use my_temp.Persistence.Quiet.{Succeeds}
use my_temp.Spec.Timers.{due_at}
use my_temp.Engine.{Call, scan_tick, perform, run}
use my_temp.Engine.Life.{run-Keeps}
use my_temp.Engine.Settled.{perform-Settled}
use my_temp.TaskLife.Reported.{Effect-of}
use my_temp.TimerLife.{IsFired}
use my_temp.TimerLife.Effects.{TimersFired-All, perform-IsFired}

All-take : (P : Timer → Type 0) (n : ℕ) (ts : List Timer) → All P ts → All P (take n ts)
All-take P zero ts h = tt
All-take P (suc n) [] h = tt
All-take P (suc n) (t ∷ ts) h = (h.0, All-take P n ts h.1)

fired-not_due :
    (locked : ℕ → Bool) (now : Time) (id : ℕ) (ts : List Timer)
    → All (λ t. t.id ≡ id → t.fired ≡ true) ts
    → All (λ t. ¬ (t.id ≡ id)) (keep (λ t. is_due now t && not (locked t.id)) ts)
fired-not_due locked now id [] h = tt
fired-not_due locked now id (t ∷ ts) h = ground (arith, h.0, fired-not_due locked now id ts h.1)

due_timers-fired :
    (locked : ℕ → Bool) (now : Time) (id : ℕ) (db : Db)
    → IsFired id db
    → All (λ t. ¬ (t.id ≡ id)) (due_timers locked now db)
unfolding due_timers
due_timers-fired locked now id db h = All-take _ 100 _ (fired-not_due locked now id db.timers h.0)

due_timers-below :
    (locked : ℕ → Bool) (now : Time) (db : Db)
    → All (λ t. t.id < db.next_timer) db.timers
    → All (λ t. t.id < db.next_timer) (due_timers locked now db)
unfolding due_timers
due_timers-below locked now db h = All-take _ 100 _ (All-keep _ _ db.timers h)

-- Suppose that a scan of the timers returns no error, in tables whose timers have ids that the sequence
-- has given out. Then no later scan finds any of the timers that it found due, whatever the engine does
-- in between: a timer is fired once.
pub timers_fire_once :
    (env env' : Env) (w : World) (cs : List (Env × Call))
    → All (λ t. t.id < w.db.next_timer) w.db.timers
    → Succeeds (perform env scan_tick w)
    → All
        (λ t. All (λ u. ¬ (u.id ≡ t.id)) (due_at env' (run (perform env scan_tick w).1 cs)))
        (due_at env w)
timers_fire_once env env' w cs below fine =
    let w₁ = (perform env scan_tick w).1 in
    let w' = run w₁ cs in
    let e =
      Effect-of env scan_tick w (perform env scan_tick w) fine
        (perform-Settled env scan_tick w tt) in
    All-mono _ _ (due_at env w)
      (λ t h.
        due_timers-fired env'.locked_timer (env'.db_clock w'.calls) t.id w'.db
          (run-Keeps (λ v. IsFired t.id v.db) (perform-IsFired t.id) w₁ cs (rw e.tables h)))
      (TimersFired-All (env.db_clock w.calls) w.db (due_at env w) w.db e.view e.fired
        (due_timers-below env.locked_timer (env.db_clock w.calls) w.db below))
