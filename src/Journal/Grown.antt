-- ===== src/Journal/Grown.antt =====
-- `InsertEvent` of internal/persistence/persistence.go under the event ids of
-- internal/history/history.go.
use my_temp.Common.{
  ℕ, ◌+◌, ◌≤◌, ◌<◌, ◌^◌, ◌≡◌, ap, ◌∙◌, List, [], ◌∷◌, ◌++◌, All, All-append, All-mono, length,
  length-append, arith,
}
use mathlib.Core.List.{append_assoc}
use my_temp.Persistence.Types.{Time, Event}
use my_temp.Persistence.Tables.{Db, order_by_event_id, non_nil}
use my_temp.Journal.Order.{order_by_event_id-append}

-- The event ids of the run still fit: an int64 counts its events and one more.
abbrev pub Fits : List Event → Type 0
Fits es = length es + 1 < 2 ^ 64

abbrev pub Numbered : List Event → Type 0
Numbered es = All (λ e. e.event_id ≤ length es) es

-- The row of an event in a table.
abbrev pub row_of : Time → Event → Db → Event
row_of now e v = record e { id = v.next_event; event_data = non_nil e.event_data; created_at = now }

-- The table has the rows of `es` and then `news`, and the next event of the run gets the id `next`.
pub record Extended (es news : List Event) (next : ℕ) (now_rows : List Event) : Type 0 where
  pub ordered : order_by_event_id now_rows ≡ order_by_event_id es ++ news
  pub numbered : Numbered now_rows
  pub ids : All (λ e. e.event_id ≤ next) now_rows
  pub next_le : next ≤ length now_rows + 1

pub record Grown (es news : List Event) (next : ℕ) (now_rows : List Event) : Type 0 where
  pub rows : now_rows ≡ es ++ news
  pub extended : Fits now_rows → Extended es news next now_rows

-- What `nextEventID` may be after one event.
abbrev pub Advances : ℕ → ℕ → ℕ → Type 0
Advances count next next' =
    count + 2 < 2 ^ 64 → next ≤ count + 1 → (next ≤ next') × (next' ≤ count + 2)

module _ (es news : List Event) (next next' : ℕ) (xs : List Event) (y : Event) where
  Extended-append :
      y.event_id ≡ next
      → Advances (length xs) next next'
      → length xs + 2 < 2 ^ 64
      → Extended es news next xs
      → Extended es (news ++ y ∷ []) next' (xs ++ y ∷ [])
  Extended-append here advances few h =
      let below : All (λ e. e.event_id ≤ y.event_id) xs =
        All-mono _ _ xs (λ e k. omega (arith, here, k)) h.ids in
      let (low, high) = advances few h.next_le in
      let len = length-append xs (y ∷ []) in
      record {
        ordered =
            order_by_event_id-append y xs below
            ∙ ap (λ l. l ++ y ∷ []) h.ordered
            ∙ append_assoc (order_by_event_id es) news (y ∷ []);
        numbered =
            All-append _ xs (y ∷ []) (All-mono _ _ xs (λ e k. omega (arith, k, len)) h.numbered)
              (omega (arith, here, h.next_le, len), tt);
        ids =
            All-append _ xs (y ∷ []) (All-mono _ _ xs (λ e k. omega (arith, k, low)) h.ids)
              (omega (arith, here, low), tt);
        next_le = omega (arith, high, len);
      }

  pub Grown-append :
      y.event_id ≡ next
      → Advances (length xs) next next'
      → Grown es news next xs
      → Grown es (news ++ y ∷ []) next' (xs ++ y ∷ [])
  Grown-append here advances h = record {
    rows = ap (λ l. l ++ y ∷ []) h.rows ∙ append_assoc es news (y ∷ []);
    extended = λ fits.
        let few : length xs + 2 < 2 ^ 64 = omega (arith, fits, length-append xs (y ∷ [])) in
        Extended-append here advances few (h.extended (omega (arith, few)));
  }
