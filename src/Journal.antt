-- ===== src/Journal.antt =====
-- The events of a run as a log: `InsertEvent` and `GetEvents` of internal/persistence/persistence.go,
-- and the event ids that internal/history/history.go gives out.
pub mod Order
pub mod Grown
pub mod Rows
pub mod Effects
pub mod Commands
pub mod Started
pub mod Calls
pub mod Asked
pub mod Bounds
use my_temp.Common.{String, List, keep}
use my_temp.Persistence.Types.{Event}
use my_temp.Persistence.Tables.{Db, is_event_of}

-- The events of a run in the order of the table.
abbrev pub rows_of : String → String → Db → List Event
rows_of wid rid db = keep (is_event_of wid rid) db.events
