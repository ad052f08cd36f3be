-- ===== src/Sdk/Registry.antt =====
-- `NewWorker`, `RegisterWorkflow` and `RegisterActivity` of sdk/worker.go. What reflection says of an
-- argument is an argument: that it is a function, and then its full name.
pub mod Names
use Prim.Native.Char.{Char, code}
use my_temp.Common.{
  ℕ, ℕ_eq, String, String_eq, ◌==◌, Bool, true, false, List, [], ◌∷◌, Option, none, some,
  if◌then◌else◌,
}
use my_temp.Sdk.Worker.{WorkflowFunction, ActivityFunction}

-- `strings.Split(s, ".")`
abbrev pub is_dot : Char → Bool
is_dot c = code c == 46

abbrev pub onto_first : Char → List String → List String
onto_first c [] = String.◌∷◌ c String.[] ∷ []
onto_first c (s ∷ ss) = String.◌∷◌ c s ∷ ss

unfoldable pub split : String → List String
split String.[] = "" ∷ []
split (String.◌∷◌ c s) = let rest = split s in if is_dot c then "" ∷ rest else onto_first c rest

-- `words[len(words)-1]`
abbrev pub last_of : List String → String
last_of [] = ""
last_of (s ∷ []) = s
last_of (s ∷ t ∷ ss) = last_of (t ∷ ss)

pub record Worker : Type 0 where
  pub id : String
  pub queue : String
  pub workflow_functions : String → Option WorkflowFunction
  pub activity_functions : String → Option ActivityFunction

unfoldable pub new_worker : String → String → Worker
new_worker uuid queue = record {
  id = uuid;
  queue = queue;
  workflow_functions = λ name. none;
  activity_functions = λ name. none;
}

-- An argument of `RegisterWorkflow` or `RegisterActivity`.
pub data Registrant (F : Type 0) : Type 0 where
  not_a_function : Registrant F
  function : String → F → Registrant F

abbrev pub insert_key : {F : Type 0} → String → F → (String → Option F) → String → Option F
insert_key name fn functions n = if n == name then some fn else functions n

-- `none` is the panic.
unfoldable pub register_workflow : Worker → Registrant WorkflowFunction → Option Worker
register_workflow w not_a_function = none
register_workflow w (function full_name fn) = some (record w {
  workflow_functions = insert_key (last_of (split full_name)) fn w.workflow_functions;
})

unfoldable pub register_activity : Worker → Registrant ActivityFunction → Option Worker
register_activity w not_a_function = none
register_activity w (function full_name fn) = some (record w {
  activity_functions = insert_key (last_of (split full_name)) fn w.activity_functions;
})
