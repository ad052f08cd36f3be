-- ===== src/Journal/Bounds.antt =====
-- The event ids that internal/history/history.go gives out, as `GetEvents` reads them.
use my_temp.Common.{
  ℕ, ◌+◌, ◌≤◌, ◌<◌, ◌^◌, String, true, false, ◌≡◌, List, [], ◌∷◌, All, All-mono, length, leb, arith,
  Bool-cases, inl, inr, subst, sym,
}
use my_temp.Persistence.Types.{Event}
use my_temp.Persistence.Tables.{insert_by_id, order_by_event_id, events_of}
use my_temp.Persistence.Session.{Env}
use my_temp.Engine.{Call, run, boot}
use my_temp.Journal.{rows_of}
use my_temp.Journal.Order.{length-order_by_event_id}
use my_temp.Journal.Calls.{run-Sound}

-- No event comes before one with a smaller id.
abbrev pub Ascending : List Event → Type 0
Ascending [] = Unit {0}
Ascending (e ∷ es) = All (λ x. e.event_id ≤ x.event_id) es × Ascending es

insert_by_id-All :
    (P : Event → Type 0) (e : Event) (es : List Event) → P e → All P es → All P (insert_by_id e es)
insert_by_id-All P e [] h k = (h, tt)
insert_by_id-All P e (x ∷ es) h (k, ks) = elim (Bool-cases (leb e.event_id x.event_id)) [
  | inl low ↦ rw low (h, (k, ks))
  | inr high ↦ rw high (k, insert_by_id-All P e es h ks)
]

order_by_event_id-All :
    (P : Event → Type 0) (es : List Event) → All P es → All P (order_by_event_id es)
order_by_event_id-All P [] h = tt
order_by_event_id-All P (e ∷ es) (h, hs) =
    insert_by_id-All P e (order_by_event_id es) h (order_by_event_id-All P es hs)

leb_le : (a b : ℕ) → leb a b ≡ true → a ≤ b
leb_le a b h = ground (arith, h)

leb_ge : (a b : ℕ) → leb a b ≡ false → b ≤ a
leb_ge a b h = ground (arith, h)

insert_by_id-Ascending :
    (e : Event) (es : List Event) → Ascending es → Ascending (insert_by_id e es)
insert_by_id-Ascending e [] h = (tt, tt)
insert_by_id-Ascending e (x ∷ es) (h, hs) = elim (Bool-cases (leb e.event_id x.event_id)) [
  | inl low ↦
      let le = leb_le e.event_id x.event_id low in
      rw low ((le, All-mono _ _ es (λ y k. omega (arith, le, k)) h), (h, hs))
  | inr high ↦ rw high (
    insert_by_id-All _ e es (leb_ge e.event_id x.event_id high) h,
    insert_by_id-Ascending e es hs,
  )
]

order_by_event_id-Ascending : (es : List Event) → Ascending (order_by_event_id es)
order_by_event_id-Ascending [] = tt
order_by_event_id-Ascending (e ∷ es) =
    insert_by_id-Ascending e (order_by_event_id es) (order_by_event_id-Ascending es)

-- At every moment of an engine's life the history of a run, as a poll hands it out, is in the order of
-- its event ids, and no event id is greater than the number of its events, as long as that number and
-- one more fits into an int64.
pub event_ids_in_bounds :
    (wid rid : String) (cs : List (Env × Call))
    → let history = events_of wid rid (run boot cs).db in
      length history + 1 < 2 ^ 64
      → Ascending history × All (λ e. e.event_id ≤ length history) history
unfolding events_of
event_ids_in_bounds wid rid cs fits =
    let rows = rows_of wid rid (run boot cs).db in
    let count = length-order_by_event_id rows in
    let numbered = (run-Sound cs).1 wid rid (subst (λ n. n + 1 < 2 ^ 64) count fits) in
    (
      order_by_event_id-Ascending rows,
      order_by_event_id-All _ rows
          (subst (λ n. All (λ e. e.event_id ≤ n) rows) (sym count) numbered),
    )
