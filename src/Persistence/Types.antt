-- ===== src/Persistence/Types.antt =====
-- internal/persistence/types.go: the rows. A `[]byte` is `none` for nil; an int32 or int64 is the
-- number of its bits; a `time.Time` is its nanoseconds since 1970.
use my_temp.Common.{ℕ, String, Bool, List, Option}
use my_temp.Common.Int.{ℤ, negsuc}

abbrev pub Bytes : Type 0
Bytes = Option (List ℕ)

abbrev pub Time : Type 0
Time = ℤ

-- `time.Time{}`: midnight of January 1 of the year 1.
abbrev pub zero_time : Time
zero_time = negsuc 62135596799999999999

pub record WorkflowExecution : Type 0 where
  pub workflow_id : String
  pub run_id : String
  pub workflow_type : String
  pub task_queue : String
  pub status : String
  pub started_at : Time
  pub closed_at : Option Time

pub record Event : Type 0 where
  pub id : ℕ
  pub workflow_id : String
  pub run_id : String
  pub event_id : ℕ
  pub event_type : String
  pub signal_name : String
  pub activity_name : String
  pub activity_index : ℕ
  pub timer_index : ℕ
  pub event_data : Bytes
  pub created_at : Time

pub record Task : Type 0 where
  pub id : ℕ
  pub task_queue : String
  pub task_type : String
  pub workflow_type : String
  pub workflow_id : String
  pub run_id : String
  pub scheduled_event_id : ℕ
  pub input : Bytes
  pub activity_name : String
  pub activity_index : ℕ
  pub attempt : ℕ
  pub max_attempts : ℕ
  pub visibility_time : Time
  pub lease_owner : Option String
  pub lease_expires_at : Option Time

pub record Timer : Type 0 where
  pub id : ℕ
  pub workflow_id : String
  pub run_id : String
  pub timer_index : ℕ
  pub fire_at : Time
  pub fired : Bool
