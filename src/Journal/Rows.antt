-- ===== src/Journal/Rows.antt =====
-- The rows of one run in `workflow_events`, as internal/history/history.go adds to them.
use my_temp.Common.{
  ℕ, ◌+◌, String, String_eq, true, false, ◌≡◌, ap, sym, ◌∙◌, List, [], ◌∷◌, ◌++◌, All-mono,
  keep-append, length, arith, if◌then◌else◌, subst, int64, eq_iff,
}
use mathlib.Core.List.{append-nil}
use my_temp.Persistence.Types.{Time, Event}
use my_temp.Persistence.Tables.{Db, is_event_of, insert_event_row, order_by_event_id, events_of}
use my_temp.Spec.Effects.{next_id_of}
use my_temp.Journal.{rows_of}
use my_temp.Journal.Order.{length-order_by_event_id}
use my_temp.Journal.Grown.{Fits, Numbered, row_of, Grown, Advances, Grown-append}

-- While the ids of the run fit, none of them passes the number of its events.
abbrev pub Tidy : String → String → Db → Type 0
Tidy wid rid db = Fits (rows_of wid rid db) → Numbered (rows_of wid rid db)

-- The history of the run is the earlier one and then some events.
pub record Continues (wid rid : String) (db db' : Db) : Type 0 where
  pub news : List Event
  pub rows : rows_of wid rid db' ≡ rows_of wid rid db ++ news
  pub log : Fits (rows_of wid rid db') → events_of wid rid db' ≡ events_of wid rid db ++ news
  pub tidy : Tidy wid rid db'

pub own_ids :
    (wid rid : String) (e : Event)
    → is_event_of wid rid e ≡ true
    → (e.workflow_id ≡ wid) × (e.run_id ≡ rid)
own_ids wid rid e own = ground (arith, own, eq_iff e.workflow_id wid, eq_iff e.run_id rid)

module _ (wid rid : String) where
  pub next_id_of-length :
      (db : Db) → next_id_of wid rid db ≡ int64 (length (rows_of wid rid db) + 1)
  unfolding events_of
  next_id_of-length db = ap (λ n. int64 (n + 1)) (length-order_by_event_id (rows_of wid rid db))

  pub Grown-start :
      (db : Db)
      → Tidy wid rid db
      → Grown (rows_of wid rid db) [] (next_id_of wid rid db) (rows_of wid rid db)
  Grown-start db tidy = record {
    rows = sym (append-nil (rows_of wid rid db));
    extended = λ fits.
        let len = next_id_of-length db in
        record {
          ordered = sym (append-nil (order_by_event_id (rows_of wid rid db)));
          numbered = tidy fits;
          ids = All-mono _ _ (rows_of wid rid db) (λ e k. omega (arith, k, len, fits)) (tidy fits);
          next_le = omega (arith, len, fits);
        };
  }

  pub Grown-end :
      {db db' : Db} {news : List Event} {next : ℕ}
      → Grown (rows_of wid rid db) news next (rows_of wid rid db')
      → Continues wid rid db db'
  unfolding events_of
  Grown-end {news = news} h = record {
    news = news;
    rows = h.rows;
    log = λ fits. (h.extended fits).ordered;
    tidy = λ fits. (h.extended fits).numbered;
  }

  pub own_rows :
      (now : Time) (e : Event) (v : Db)
      → is_event_of wid rid e ≡ true
      → rows_of wid rid (insert_event_row now e v) ≡ rows_of wid rid v ++ row_of now e v ∷ []
  unfolding insert_event_row
  own_rows now e v own =
      keep-append (is_event_of wid rid) v.events (row_of now e v ∷ [])
      ∙ ap (λ b. rows_of wid rid v ++ (if b then row_of now e v ∷ [] else [])) own

  pub other_rows :
      (now : Time) (e : Event) (v : Db)
      → is_event_of wid rid e ≡ false
      → rows_of wid rid (insert_event_row now e v) ≡ rows_of wid rid v
  unfolding insert_event_row
  other_rows now e v other =
      keep-append (is_event_of wid rid) v.events (row_of now e v ∷ [])
      ∙ ap (λ b. rows_of wid rid v ++ (if b then row_of now e v ∷ [] else [])) other
      ∙ append-nil (rows_of wid rid v)

  module _ {es news : List Event} {next : ℕ} (now : Time) (e : Event) (v : Db) where
    pub own-Grown :
        (next' : ℕ)
        → is_event_of wid rid e ≡ true
        → e.event_id ≡ next
        → Advances (length (rows_of wid rid v)) next next'
        → Grown es news next (rows_of wid rid v)
        → Grown es (news ++ row_of now e v ∷ []) next' (rows_of wid rid (insert_event_row now e v))
    own-Grown next' own here advances h =
        subst (Grown es (news ++ row_of now e v ∷ []) next') (sym (own_rows now e v own))
          (Grown-append es news next next' (rows_of wid rid v) (row_of now e v) here advances h)

    pub other-Grown :
        is_event_of wid rid e ≡ false
        → Grown es news next (rows_of wid rid v)
        → Grown es news next (rows_of wid rid (insert_event_row now e v))
    other-Grown other h = subst (Grown es news next) (sym (other_rows now e v other)) h

pub stays : (count next : ℕ) → Advances count next next
stays count next few le = omega (arith, le)

pub one_more : (count next : ℕ) → Advances count next (int64 (next + 1))
one_more count next few le = omega (arith, few, le)
