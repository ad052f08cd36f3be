-- ===== src/Journal/Order.antt =====
-- `ORDER BY event_id` of `GetEvents` in internal/persistence/persistence.go.
use my_temp.Common.{◌+◌, ◌≤◌, ◌≡◌, refl, List, [], ◌∷◌, ◌++◌, All, arith, length, ◌∙◌, ap}
use my_temp.Persistence.Types.{Event}
use my_temp.Persistence.Tables.{insert_by_id, order_by_event_id}

insert_by_id-append :
    (e y : Event) (es : List Event)
    → e.event_id ≤ y.event_id
    → insert_by_id e (es ++ y ∷ []) ≡ insert_by_id e es ++ y ∷ []
insert_by_id-append e y [] h = ground arith
insert_by_id-append e y (x ∷ es) h = ground (arith, insert_by_id-append e y es h)

-- An event with an id that none passes comes last.
pub order_by_event_id-append :
    (y : Event) (es : List Event)
    → All (λ e. e.event_id ≤ y.event_id) es
    → order_by_event_id (es ++ y ∷ []) ≡ order_by_event_id es ++ y ∷ []
order_by_event_id-append y [] h = refl
order_by_event_id-append y (e ∷ es) (h, hs) =
    ap (insert_by_id e) (order_by_event_id-append y es hs)
    ∙ insert_by_id-append e y (order_by_event_id es) h

length-insert_by_id : (e : Event) (es : List Event) → length (insert_by_id e es) ≡ length es + 1
length-insert_by_id e [] = refl
length-insert_by_id e (x ∷ es) = ground (arith, length-insert_by_id e es)

pub length-order_by_event_id : (es : List Event) → length (order_by_event_id es) ≡ length es
length-order_by_event_id [] = refl
length-order_by_event_id (e ∷ es) =
    omega (arith, length-insert_by_id e (order_by_event_id es), length-order_by_event_id es)
