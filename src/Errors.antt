-- ===== src/Errors.antt =====
-- The error values of the engine: the sentinels of internal/history/history.go and
-- internal/persistence/persistence.go, wrapped by `fmt.Errorf("...: %w", err)`.
use Prim.Native.String.{◌++◌ as append}
use my_temp.Common.{String, Bool, false}

pub data Sentinel : Type 0 where
  not_found workflow_already_running workflow_not_running : Sentinel

-- `failure` is an error of the database or its driver, with its text.
pub data Error : Type 0 where
  sentinel : Sentinel → Error
  failure : String → Error
  wrap : String → Error → Error

abbrev pub same_sentinel : Sentinel → Sentinel → Bool
same_sentinel not_found not_found = Bool.true
same_sentinel workflow_already_running workflow_already_running = Bool.true
same_sentinel workflow_not_running workflow_not_running = Bool.true
same_sentinel _ _ = false

-- `errors.Is`: a walk along the chain of wrapped errors.
unfoldable pub is : Error → Sentinel → Bool
is (sentinel s) t = same_sentinel s t
is (failure m) t = false
is (wrap c e) t = is e t

abbrev pub sentinel_text : Sentinel → String
sentinel_text not_found = "not found"
sentinel_text workflow_already_running = "workflow already running"
sentinel_text workflow_not_running = "workflow not running"

-- `err.Error()`.
unfoldable pub error_text : Error → String
error_text (sentinel s) = sentinel_text s
error_text (failure m) = m
error_text (wrap c e) = append c (append ": " (error_text e))
