-- ===== src/Spec/Timers/Chosen.antt =====
-- The rows that `GetDueTimers` of internal/persistence/persistence.go chooses.
use mathlib.Core.List.{Mem, mem-cons_self, mem-cons_of_mem}
use my_temp.Common.{
  ℕ, zero, suc, ap, sym, subst, ◌≤◌, ◌<◌, Bool, true, false, not, ◌&&◌, ◌≡◌, refl, List, [], ◌∷◌,
  keep, take, length, All, All-mono, Bool-cases, inl, inr, arith,
}
use my_temp.Common.Int.{◌≤ℤ◌}
use my_temp.Persistence.Types.{Time, Timer}
use my_temp.Persistence.Tables.{Db, is_due, due_timers}

-- A timer that may be fired.
pub record IsDue (locked : ℕ → Bool) (now : Time) (t : Timer) : Type 0 where
  pub past : t.fire_at ≤ℤ now
  pub waiting : t.fired ≡ false
  pub unlocked : locked t.id ≡ false

-- Up to a hundred of the due timers, and all of them when they are fewer.
pub record Chosen (locked : ℕ → Bool) (now : Time) (timers ts : List Timer) : Type 0 where
  pub from : All (λ t. Mem t timers) ts
  pub due : All (IsDue locked now) ts
  pub few : length ts ≤ 100
  pub all : length ts < 100 → All (λ t. IsDue locked now t → Mem t ts) timers

All-kept_rows :
    (p : Timer → Bool) (xs : List Timer) → All (λ t. Mem t xs × (p t ≡ true)) (keep p xs)
All-kept_rows p [] = tt
All-kept_rows p (x ∷ xs) =
    let rest =
      All-mono (λ t. Mem t xs × (p t ≡ true)) (λ t. Mem t (x ∷ xs) × (p t ≡ true)) (keep p xs)
        (λ t h. (mem-cons_of_mem x h.0, h.1)) (All-kept_rows p xs) in
    elim (Bool-cases (p x)) [ inl on ↦ rw on ((mem-cons_self, on), rest) | inr off ↦ rw off rest ]

All-missed : (p : Timer → Bool) (xs : List Timer) → All (λ t. p t ≡ true → Mem t (keep p xs)) xs
All-missed p [] = tt
All-missed p (x ∷ xs) = (
  λ e. rw e mem-cons_self,
  All-mono _ (λ t. p t ≡ true → Mem t (keep p (x ∷ xs))) xs
      (λ t k e. elim (Bool-cases (p x)) [
        | inl on ↦ rw on (mem-cons_of_mem x (k e))
        | inr off ↦ rw off (k e)
      ])
      (All-missed p xs),
)

All-take : (P : Timer → Type 0) (n : ℕ) (xs : List Timer) → All P xs → All P (take n xs)
All-take P zero xs h = tt
All-take P (suc n) [] h = tt
All-take P (suc n) (x ∷ xs) h = (h.0, All-take P n xs h.1)

length-take_le : (n : ℕ) (xs : List Timer) → length (take n xs) ≤ n
length-take_le zero xs = omega arith
length-take_le (suc n) [] = omega arith
length-take_le (suc n) (x ∷ xs) = omega (arith, length-take_le n xs)

take-all : (n : ℕ) (xs : List Timer) → length (take n xs) < n → take n xs ≡ xs
take-all zero xs h = absurd (omega (arith, h))
take-all (suc n) [] h = refl
take-all (suc n) (x ∷ xs) h = ap (λ l. x ∷ l) (take-all n xs (omega (arith, h)))

module _ (locked : ℕ → Bool) (now : Time) where
  passes-IsDue : (t : Timer) → (is_due now t && not (locked t.id)) ≡ true → IsDue locked now t
  passes-IsDue t e = record {
    past = ground (arith, e);
    waiting = ground (arith, e);
    unlocked = ground (arith, e);
  }

  IsDue-passes : (t : Timer) → IsDue locked now t → (is_due now t && not (locked t.id)) ≡ true
  IsDue-passes t h = ground (arith, h.past, h.waiting, h.unlocked)

  pub due_timers-Chosen : (db : Db) → Chosen locked now db.timers (due_timers locked now db)
  unfolding due_timers
  due_timers-Chosen db =
      let all_due = keep (λ t. is_due now t && not (locked t.id)) db.timers in
      let kept = All-kept_rows (λ t. is_due now t && not (locked t.id)) db.timers in
      record {
        from = All-take _ 100 all_due (All-mono _ (λ t. Mem t db.timers) all_due (λ t h. h.0) kept);
        due =
            All-take _ 100 all_due
              (All-mono _ (IsDue locked now) all_due (λ t h. passes-IsDue t h.1) kept);
        few = length-take_le 100 all_due;
        all = λ fewer.
            All-mono _ (λ t. IsDue locked now t → Mem t (take 100 all_due)) db.timers
              (λ t k due. subst (Mem t) (sym (take-all 100 all_due fewer)) (k (IsDue-passes t due)))
              (All-missed (λ t. is_due now t && not (locked t.id)) db.timers);
      }
