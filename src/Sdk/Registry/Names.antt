-- ===== src/Sdk/Registry/Names.antt =====
-- The names under which sdk/worker.go registers functions.
use Prim.Native.String.{◌++◌ as append}
use text.Mathlib.TextLemmas.{nil-append, cons-append}
use my_temp.Common.{
  ℕ_eq, String, String_eq, ◌==◌, Bool, false, ◌||◌, ◌≡◌, refl, ap, ◌∙◌, List, [], ◌∷◌, Option, some,
  if◌then◌else◌, Bool-cases, inl, inr, eq_refl,
}
use my_temp.Sdk.Worker.{WorkflowFunction, ActivityFunction}
use my_temp.Sdk.Registry.{
  is_dot, onto_first, split, last_of, Worker, function, insert_key, register_workflow,
  register_activity,
}

abbrev pub has_dot : String → Bool
has_dot String.[] = false
has_dot (String.◌∷◌ c s) = is_dot c || has_dot s

split-no_dot : (s : String) → has_dot s ≡ false → split s ≡ s ∷ []
unfolding split
split-no_dot String.[] h = refl
split-no_dot (String.◌∷◌ c s) h = elim (Bool-cases (is_dot c)) [
  | inl dot ↦ absurd (cc (rw dot at h))
  | inr other ↦ rw (other, split-no_dot s (rw other at h)) refl
]

-- There are two words at least, and the last one is `name`.
record EndsIn (name : String) (words : List String) : Type 0 where
  first : String
  second : String
  more : List String
  shape : words ≡ first ∷ second ∷ more
  last : last_of (second ∷ more) ≡ name

split-EndsIn :
    (path name : String)
    → has_dot name ≡ false
    → EndsIn name (split (append path (append "." name)))
unfolding split
split-EndsIn String.[] name h = record {
  first = "";
  second = name;
  more = [];
  shape =
      ap split (nil-append (append "." name) ∙ cons-append "." "" name)
      ∙ ap (λ s. "" ∷ split s) (nil-append name)
      ∙ ap (λ l. "" ∷ l) (split-no_dot name h);
  last = refl;
}
split-EndsIn (String.◌∷◌ c path) name h =
    let rest = split-EndsIn path name h in
    let words = split (append path (append "." name)) in
    elim (Bool-cases (is_dot c)) [
      | inl dot ↦ record {
        first = "";
        second = rest.first;
        more = rest.second ∷ rest.more;
        shape =
            ap split (cons-append c path (append "." name))
            ∙ ap (λ b. if b then "" ∷ words else onto_first c words) dot
            ∙ ap (λ l. "" ∷ l) rest.shape;
        last = rest.last;
      }
      | inr other ↦ record {
        first = String.◌∷◌ c rest.first;
        second = rest.second;
        more = rest.more;
        shape =
            ap split (cons-append c path (append "." name))
            ∙ ap (λ b. if b then "" ∷ words else onto_first c words) other
            ∙ ap (onto_first c) rest.shape;
        last = rest.last;
      }
    ]

last_word :
    (path name : String)
    → has_dot name ≡ false
    → last_of (split (append path (append "." name))) ≡ name
last_word path name h = let e = split-EndsIn path name h in rw (e.shape) (e.last)

-- What a registration leaves: the function under its name, and all other names as they were.
pub record Adds {F : Type 0} (name : String) (fn : F) (before after : String → Option F)
    : Type 0 where
  pub found : after name ≡ some fn
  pub others : (other : String) → (other == name) ≡ false → after other ≡ before other

insert_key-Adds :
    {F : Type 0} (name key : String) (fn : F) (functions : String → Option F)
    → key ≡ name
    → Adds name fn functions (insert_key key fn functions)
insert_key-Adds name key fn functions e = record {
  found = rw (e, eq_refl name) refl;
  others = λ other h. rw (e, h) refl;
}

-- A workflow function and an activity function of a Go path are registered under their own names,
-- the part of the full name after the last dot, so that a task with that name finds them; no other name
-- finds anything else than before. The name itself must have no dot.
pub registered_by_name :
    (w : Worker) (path name activity_path activity_name : String) (fn : WorkflowFunction)
    (activity : ActivityFunction)
    → has_dot name ≡ false
    → has_dot activity_name ≡ false
    → (w₁ : Worker) × (register_workflow w (function (append path (append "." name)) fn) ≡ some w₁)
      × (w₂ : Worker) × (register_activity w₁
            (function (append activity_path (append "." activity_name)) activity)
          ≡ some w₂)
      × Adds name fn w.workflow_functions w₂.workflow_functions
      × Adds activity_name activity w.activity_functions w₂.activity_functions
unfolding register_workflow register_activity
registered_by_name w path name activity_path activity_name fn activity h k = (
  _,
  refl,
  _,
  refl,
  insert_key-Adds name _ fn w.workflow_functions (last_word path name h),
  insert_key-Adds activity_name _ activity w.activity_functions
      (last_word activity_path activity_name k),
)
