-- ===== src/RunLife/Unique/Rows.antt =====
-- Rows that start in turn: what an insert and a status keep, and how many of them are running.
use my_temp.Common.{
  ◌≤◌, String, String_eq, Bool, true, false, ◌≡◌, refl, inl, inr, List, [], ◌∷◌, ◌++◌, Option, none,
  some, All, All-append, any, any-append, subst, sym, All-keep, ◌||◌, keep, arith, Bool-cases,
  Option-cases, eq_iff, eq_refl,
}
use mathlib.Core.Option.{some-injective}
use my_temp.Common.Int.{ltb_ℤ}
use my_temp.Persistence.Types.{WorkflowExecution}
use my_temp.Persistence.Tables.{latest}
use my_temp.RunLife.{IsOver}
use my_temp.RunLife.Unique.{is_of, is_running_of, InTurn, running_runs}

abbrev NotRunningRow : Option WorkflowExecution → Type 0
NotRunningRow none = Unit {0}
NotRunningRow (some x) = IsOver x

-- The latest of some rows, if there are any, is one of them.
latest-All :
    (P : WorkflowExecution → Type 0) (xs : List WorkflowExecution) {y : WorkflowExecution}
    → All P xs
    → latest xs ≡ some y
    → P y
unfolding latest
latest-All P [] h e = cc
latest-All P (x ∷ xs) {y} h e = elim (Option-cases (latest xs)) [
  | inl none_left ↦ subst P (some-injective x y (rw none_left at e)) h.0
  | inr (z, found) ↦ elim (Bool-cases (ltb_ℤ x.started_at z.started_at)) [
    | inl later ↦ subst P (some-injective z y (rw (found, later) at e)) (latest-All P xs h.1 found)
    | inr not_later ↦ subst P (some-injective x y (rw (found, not_later) at e)) h.0
  ]
]

latest-none : (xs : List WorkflowExecution) → latest xs ≡ none → xs ≡ []
unfolding latest
latest-none [] e = refl
latest-none (x ∷ xs) e = elim (Option-cases (latest xs)) [
  | inl none_left ↦ absurd (one (rw none_left at e))
  | inr (z, found) ↦ elim (Bool-cases (ltb_ℤ x.started_at z.started_at)) [
    | inl later ↦ absurd (one (rw (found, later) at e))
    | inr not_later ↦ absurd (one (rw (found, not_later) at e))
  ]
]
  where
    one : {y : WorkflowExecution} → some y ≡ none → ⊥
    one e' = cc

keep-any :
    (p : WorkflowExecution → Bool) (xs : List WorkflowExecution) → keep p xs ≡ [] → any p xs ≡ false
keep-any p [] e = refl
keep-any p (x ∷ xs) e = ground (arith, keep-any p xs)

any-keep :
    (p : WorkflowExecution → Bool) (xs : List WorkflowExecution) → any p xs ≡ false → keep p xs ≡ []
any-keep p [] e = refl
any-keep p (x ∷ xs) e = ground (arith, any-keep p xs)

is_of-workflow_id :
    (wid : String) (x : WorkflowExecution) → is_of wid x ≡ true → x.workflow_id ≡ wid
is_of-workflow_id wid x e = ground (arith, eq_iff x.workflow_id wid)

latest-later :
    (x y : WorkflowExecution) (xs : List WorkflowExecution)
    → latest xs ≡ some y
    → ltb_ℤ x.started_at y.started_at ≡ true
    → latest (x ∷ xs) ≡ some y
unfolding latest
latest-later x y xs e later = rw (e, later) refl

latest-alone :
    (x : WorkflowExecution) (xs : List WorkflowExecution)
    → latest xs ≡ none
    → latest (x ∷ xs) ≡ some x
unfolding latest
latest-alone x xs e = rw e refl

-- If the latest row of a workflow is over, then all of its rows are.
pub IsOver-All :
    (wid : String) (xs : List WorkflowExecution)
    → InTurn xs
    → NotRunningRow (latest (keep (is_of wid) xs))
    → All (λ x. is_of wid x ≡ true → IsOver x) xs
IsOver-All wid [] h n = tt
IsOver-All wid (x ∷ xs) h n = elim (Bool-cases (is_of wid x)) [
  | inr other ↦
      (λ e. absurd (true_false (is_of wid x) e other), IsOver-All wid xs h.2 (rw other at n))
  | inl mine ↦ elim (Option-cases (latest (keep (is_of wid) xs))) [
    | inl alone ↦ (
      λ e. rw (latest-alone x (keep (is_of wid) xs) alone) at (n' mine),
      IsOver-All wid xs h.2 (rw alone tt),
    )
    | inr (y, found) ↦
        let later =
          latest-All (λ z. ltb_ℤ x.started_at z.started_at ≡ true) (keep (is_of wid) xs)
            (All-keep (λ z. ltb_ℤ x.started_at z.started_at ≡ true) (is_of wid) xs h.0) found in
        let over = rw (latest-later x y (keep (is_of wid) xs) found later) at (n' mine) in
        (
          λ e. h.1 (
              subst (λ w. any (is_of w) xs ≡ true) (sym (is_of-workflow_id wid x mine))
                (some_mine y found)),
          IsOver-All wid xs h.2 (rw found over),
        )
  ]
]
  where
    true_false : (b : Bool) → b ≡ true → b ≡ false → ⊥
    true_false b e e' = cc

    n' : is_of wid x ≡ true → NotRunningRow (latest (x ∷ keep (is_of wid) xs))
    n' mine = rw mine at n

    nothing : (y : WorkflowExecution) → latest [] ≡ some y → ⊥
    nothing y e = latest-All (λ z. ⊥) [] tt e

    some_mine :
        (y : WorkflowExecution) → latest (keep (is_of wid) xs) ≡ some y → any (is_of wid) xs ≡ true
    some_mine y found = elim (Bool-cases (any (is_of wid) xs)) [
      | inl hit ↦ hit
      | inr none_mine ↦ absurd (nothing y (rw (any-keep (is_of wid) xs none_mine) at found))
    ]

pub append-InTurn :
    (new : WorkflowExecution) (xs : List WorkflowExecution)
    → InTurn xs
    → All (λ x. ltb_ℤ x.started_at new.started_at ≡ true) xs
    → All (λ x. is_of new.workflow_id x ≡ true → IsOver x) xs
    → InTurn (xs ++ new ∷ [])
append-InTurn new [] h later over = (tt, λ e. absurd (no_row e), tt)
  where
    no_row : false ≡ true → ⊥
    no_row e = cc
append-InTurn new (x ∷ xs) h later over = (
  All-append (λ y. ltb_ℤ x.started_at y.started_at ≡ true) xs _ h.0 (later.0, tt),
  λ e. followed (rw (any-append (is_of x.workflow_id) xs (new ∷ [])) at e),
  append-InTurn new xs h.2 later.1 over.1,
)
  where
    followed :
        (any (is_of x.workflow_id) xs || any (is_of x.workflow_id) (new ∷ [])) ≡ true → IsOver x
    followed e = elim (Bool-cases (any (is_of x.workflow_id) xs)) [
      | inl again ↦ h.1 again
      | inr last ↦
          over.0
            (ground (arith, eq_iff new.workflow_id x.workflow_id, eq_refl x.workflow_id, e, last))
    ]

pub running_runs-none :
    (wid : String) (xs : List WorkflowExecution)
    → any (is_of wid) xs ≡ false
    → running_runs wid xs ≡ 0
running_runs-none wid [] e = refl
running_runs-none wid (x ∷ xs) e = ground (arith, running_runs-none wid xs)

pub running_runs-one :
    (wid : String) (xs : List WorkflowExecution) → InTurn xs → running_runs wid xs ≤ 1
running_runs-one wid [] h = omega arith
running_runs-one wid (x ∷ xs) h = elim (Bool-cases (is_running_of wid x)) [
  | inr other ↦ rw other (running_runs-one wid xs h.2)
  | inl mine ↦ elim (Bool-cases (any (is_of wid) xs)) [
    | inr last ↦ rw (mine, running_runs-none wid xs last) (omega arith)
    | inl again ↦
        absurd (both mine (h.1 (subst (λ w. any (is_of w) xs ≡ true) (sym (own mine)) again)))
  ]
]
  where
    own : is_running_of wid x ≡ true → x.workflow_id ≡ wid
    own e = ground (arith, eq_iff x.workflow_id wid)

    both : is_running_of wid x ≡ true → IsOver x → ⊥
    both e over = ground arith
