-- ===== src/Spec/Polling/Rows.antt =====
-- The rows of `PollTask` of internal/persistence/persistence.go: which one it chooses, and what it makes
-- of it.
use mathlib.Core.List.{Mem, mem-cons_self, mem-cons_of_mem}
use my_temp.Common.{
  ℕ, ◌≤◌, String, String_eq, ℕ_eq, ◌==◌, leb, not, ◌&&◌, Bool, true, false, ◌≡◌, refl, sym, inl,
  inr, List, [], ◌∷◌, Option, none, some, some-injective, keep, All, All-mono, All-keep, arith,
  Option-cases, Bool-cases, subst,
}
use my_temp.Common.Int.{pos, leb_ℤ, ◌+ℤ◌, ◌≤ℤ◌}
use my_temp.Common.Rows.{Rows, map-Rows}
use my_temp.Persistence.Types.{Time, Task}
use my_temp.Persistence.Tables.{pollable, is_pollable, lowest_id, lease}
use my_temp.Persistence.Session.{Env, World}
use my_temp.Persistence.Ends.{Ends, Cause, Ends-mono}
use my_temp.Persistence.{poll_task}
use my_temp.Spec.Polling.{TaskPolled, poll_task-TaskPolled}

-- What `lowest_id` returns is a row of the list.
pub lowest_id-All :
    (P : Task → Type 0) (ts : List Task) {t : Task} → All P ts → lowest_id ts ≡ some t → P t
lowest_id-All P [] h e = cc
lowest_id-All P (u ∷ ts) {t} h e = elim (Option-cases (lowest_id ts)) [
  | inl none_left ↦ subst P (some-injective u t (rw none_left at e)) h.0
  | inr (v, found) ↦ elim (Bool-cases (leb u.id v.id)) [
    | inl low ↦ subst P (some-injective u t (rw (found, low) at e)) h.0
    | inr high ↦ subst P (some-injective v t (rw (found, high) at e)) (lowest_id-All P ts h.1 found)
  ]
]

lowest_id-none : (ts : List Task) → lowest_id ts ≡ none → ts ≡ []
lowest_id-none [] e = refl
lowest_id-none (t ∷ ts) e = ground (arith, e)

lowest_id-le : (ts : List Task) {t : Task} → lowest_id ts ≡ some t → All (λ u. t.id ≤ u.id) ts
lowest_id-le [] e = tt
lowest_id-le (u ∷ ts) {t} e = elim (Option-cases (lowest_id ts)) [
  | inl none_left ↦
      rw (lowest_id-none ts none_left) (ground (arith, some-injective u t (rw none_left at e)))
  | inr (v, found) ↦ elim (Bool-cases (leb u.id v.id)) [
    | inl low ↦
        subst (λ t. All (λ x. t.id ≤ x.id) (u ∷ ts)) (some-injective u t (rw (found, low) at e))
          (
            omega arith,
            All-mono (λ x. v.id ≤ x.id) (λ x. u.id ≤ x.id) ts (λ x h. ground (arith, low, h))
                (lowest_id-le ts found),
          )
    | inr high ↦
        subst (λ t. All (λ x. t.id ≤ x.id) (u ∷ ts)) (some-injective v t (rw (found, high) at e))
          (ground (arith, high), lowest_id-le ts found)
  ]
]

All-Mem : (ts : List Task) → All (λ t. Mem t ts) ts
All-Mem [] = tt
All-Mem (t ∷ ts) = (
  mem-cons_self,
  All-mono (λ u. Mem u ts) (λ u. Mem u (t ∷ ts)) ts (λ u m. mem-cons_of_mem t m) (All-Mem ts),
)

All-kept :
    (P : Task → Type 0) (p : Task → Bool) (ts : List Task)
    → All P (keep p ts)
    → All (λ t. p t ≡ true → P t) ts
All-kept P p [] h = tt
All-kept P p (t ∷ ts) h = elim (Bool-cases (p t)) [
  | inl on ↦ let k = rw on at h in (λ e. k.0, All-kept P p ts k.1)
  | inr off ↦ (λ e. absurd (cc (e, off)), All-kept P p ts (rw off at h))
]

All-passed : (p : Task → Bool) (ts : List Task) → All (λ t. p t ≡ true) (keep p ts)
All-passed p [] = tt
All-passed p (t ∷ ts) = ground (arith, All-passed p ts)

both : (a b : Bool) → (a && b) ≡ true → (a ≡ true) × (b ≡ true)
both true b e = (refl, e)
both false b e = absurd (cc e)

module _ (locked : ℕ → Bool) (now : Time) (queue type : String) where
  -- A row that a worker can be given.
  pub record IsFree (t : Task) : Type 0 where
    pub on_queue : t.task_queue ≡ queue
    pub of_type : t.task_type ≡ type
    pub without_lease : t.lease_owner ≡ none
    pub visible : t.visibility_time ≤ℤ now
    pub unlocked : locked t.id ≡ false

  chosen-IsFree : (t : Task) → (is_pollable now queue type t && not (locked t.id)) ≡ true → IsFree t
  chosen-IsFree t e =
      let (p, unlocked) = both (is_pollable now queue type t) _ e in
      let (p₁, visible) = both _ (leb_ℤ t.visibility_time now) p in
      let (p₂, free) = both (t.task_queue == queue && t.task_type == type) _ p₁ in
      let (q, k) = both (t.task_queue == queue) _ p₂ in
      record {
        on_queue = (String_eq.beq_iff t.task_queue queue).0 q;
        of_type = (String_eq.beq_iff t.task_type type).0 k;
        without_lease = ground (arith, free);
        visible = ground (arith, visible);
        unlocked = ground (arith, unlocked);
      }

  IsFree-chosen : (t : Task) → IsFree t → (is_pollable now queue type t && not (locked t.id)) ≡ true
  IsFree-chosen t h =
      rw
        (
          (String_eq.beq_iff t.task_queue queue).1 (h.on_queue),
          (String_eq.beq_iff t.task_type type).1 (h.of_type),
          h.unlocked,
        )
        (ground (arith, h.without_lease, h.visible))

-- The row of a task that has been taken; the other rows are as they were.
abbrev pub Taken : Time → String → ℕ → Task → Task → Type 0
Taken now owner id t t' =
    (t.id ≡ id
      → t'
        ≡ record t { lease_owner = some owner; lease_expires_at = some (now +ℤ pos 30000000000) })
    × (¬ (t.id ≡ id) → t' ≡ t)

lease-Taken :
    (now : Time) (owner : String) (id : ℕ) (t : Task) → Taken now owner id t (lease now owner id t)
unfolding lease
lease-Taken now owner id t = (λ e. ground (arith, e), λ e. ground (arith, e))

module _ (env : Env) (queue type owner : String) (w : World) where
  abbrev pub Free : Task → Type 0
  Free = IsFree env.locked_task (env.db_clock w.calls) queue type

  -- No row is free, or the one of the lowest id is taken.
  abbrev pub TookTask : Option Task → World → Type 0
  TookTask none w' = All (λ u. ¬ Free u) w.db.tasks × (w'.db ≡ w.db)
  TookTask (some t) w' =
      Mem t w.db.tasks
      × Free t
      × All (λ u. Free u → t.id ≤ u.id) w.db.tasks
      × Rows (Taken (env.db_clock w.calls) owner t.id) w.db.tasks w'.db.tasks
      × (w'.db ≡ record (w.db) { tasks = w'.db.tasks })

  TaskPolled-TookTask :
      (r : Option Task) (w' : World) → TaskPolled env queue type owner w r w' → TookTask r w'
  unfolding pollable
  TaskPolled-TookTask none w' h = (
    All-mono _ _ w.db.tasks (λ u k free. k (IsFree-chosen _ _ queue type u free))
        (All-kept (λ u. ⊥)
          (λ t. is_pollable (env.db_clock w.calls) queue type t && not (env.locked_task t.id))
          w.db.tasks (subst (All (λ u. ⊥)) (sym (lowest_id-none _ (sym h.found))) tt)),
    h.tables,
  )
  TaskPolled-TookTask (some t) w' h = (
    lowest_id-All (λ u. Mem u w.db.tasks) _ (All-keep _ _ w.db.tasks (All-Mem w.db.tasks))
        (sym h.found),
    lowest_id-All Free _
        (All-mono _ Free _ (chosen-IsFree env.locked_task (env.db_clock w.calls) queue type)
          (All-passed _ w.db.tasks))
        (sym h.found),
    All-mono _ _ w.db.tasks (λ u k free. k (IsFree-chosen _ _ queue type u free))
        (All-kept (λ u. t.id ≤ u.id) _ w.db.tasks (lowest_id-le _ (sym h.found))),
    rw (h.tables) (
        map-Rows (Taken (env.db_clock w.calls) owner t.id) _ w.db.tasks
          (lease-Taken (env.db_clock w.calls) owner t.id)),
    rw (h.tables) refl,
  )

  -- `PollTask` ends without an error with the row of the lowest id among those of the queue and the
  -- type that are visible, without a lease and not locked by others; the row is then leased to the
  -- caller for 30 seconds, and no other row and no other table has changed. When there is no such row,
  -- it returns none and changes nothing. It returns an error only because a call to the database failed.
  pub poll_task-TookTask : Ends (Cause env ⊥) TookTask (poll_task env queue type owner) w
  poll_task-TookTask = Ends-mono (poll_task-TaskPolled env queue type owner w) TaskPolled-TookTask
