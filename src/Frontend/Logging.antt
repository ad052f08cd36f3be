-- ===== src/Frontend/Logging.antt =====
-- internal/frontend/grpc/logging.go: the logger of a request. A logger is the attributes that it adds
-- to each line; a context carries the one that the interceptor has attached, if any.
use Prim.Native.Char.{Char, code}
use Prim.Native.String.{◌++◌ as append}
use text.Mathlib.TextLemmas.{nil-append, cons-append}
use my_temp.Common.{
  ℕ_eq, String, ◌==◌, Bool, false, ◌||◌, ◌≡◌, refl, ap, ◌∙◌, List, [], ◌∷◌, ◌++◌, Option, none,
  some, if◌then◌else◌, Bool-cases, inl, inr,
}

pub record Logger : Type 0 where
  pub attributes : List (String × String)

pub record RequestContext : Type 0 where
  pub logger : Option Logger

-- `loggerFrom`
unfoldable pub logger_from : RequestContext → Logger → Logger
logger_from ctx default_logger = elim ctx.logger [ some l ↦ l | none ↦ default_logger ]

abbrev is_slash : Char → Bool
is_slash c = code c == 47

-- What comes after the last slash.
unfoldable after_last_slash : String → Option String
after_last_slash String.[] = none
after_last_slash (String.◌∷◌ c s) = elim (after_last_slash s) [
  | some name ↦ some name
  | none ↦ if is_slash c then some s else none
]

-- `info.FullMethod[strings.LastIndex(info.FullMethod, "/")+1:]`
unfoldable pub rpc_name : String → String
unfolding after_last_slash
rpc_name full_method = elim (after_last_slash full_method) [ some name ↦ name | none ↦ full_method ]

unfoldable pub logging_interceptor :
    {A : Type 0} → Logger → String → (RequestContext → A) → RequestContext → A
logging_interceptor l full_method handler ctx = handler (record ctx {
  logger = some (record { attributes = l.attributes ++ ("rpc", rpc_name full_method) ∷ [] });
})

abbrev pub has_slash : String → Bool
has_slash String.[] = false
has_slash (String.◌∷◌ c s) = is_slash c || has_slash s

no_slash : (s : String) → has_slash s ≡ false → after_last_slash s ≡ none
unfolding after_last_slash
no_slash String.[] h = refl
no_slash (String.◌∷◌ c s) h = elim (Bool-cases (is_slash c)) [
  | inl slash ↦ absurd (cc (rw slash at h))
  | inr other ↦ rw (no_slash s (rw other at h), other) refl
]

abbrev step : Char → String → Option String → Option String
step c s o = elim o [ some name ↦ some name | none ↦ if is_slash c then some s else none ]

after_last_slash-append :
    (service method : String)
    → has_slash method ≡ false
    → after_last_slash (append service (append "/" method)) ≡ some method
unfolding after_last_slash
after_last_slash-append String.[] method h =
    ap after_last_slash (nil-append (append "/" method) ∙ cons-append "/" "" method)
    ∙ ap (λ s. after_last_slash (String.◌∷◌ "/" s)) (nil-append method)
    ∙ ap (step "/" method) (no_slash method h)
after_last_slash-append (String.◌∷◌ c service) method h =
    ap after_last_slash (cons-append c service (append "/" method))
    ∙ ap (step c (append service (append "/" method))) (after_last_slash-append service method h)

-- A handler that takes its logger from the context, with any other one as the default, logs under the
-- name of the method alone, the part of the full method after the last slash, whatever the context held
-- before. The name itself must have no slash.
pub logs_under_the_method :
    (l default_logger : Logger) (service method : String) (ctx : RequestContext)
    → has_slash method ≡ false
    → logging_interceptor l
        (append service (append "/" method))
        (λ c. logger_from c default_logger)
        ctx
      ≡ record { attributes = l.attributes ++ ("rpc", method) ∷ [] }
unfolding logging_interceptor logger_from rpc_name
logs_under_the_method l default_logger service method ctx h =
    ap
      (λ o. record {
        attributes =
            l.attributes
            ++ ("rpc", elim o [ some name ↦ name | none ↦ append service (append "/" method) ])
              ∷ [];
      })
      (after_last_slash-append service method h)
