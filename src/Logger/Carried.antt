-- ===== src/Logger/Carried.antt =====
-- The logger that a context carries.
use golang_staterpack.Prelude.{String, ◌≡◌, refl, ap, ◌∙◌, List, [], ◌∷◌, Option, none, some}
use golang_staterpack.Libraries.Slog.{Contexts, IsContexts, Key}
use golang_staterpack.Logger.Defs.{
  Logger, Value, logger, from_context, with_context, or_fallback, held,
}

module _ {X L : Type 0} (contexts : Contexts X (Value L)) where
  -- A context derived by other packages, which store values under their own keys.
  abbrev pub derived : List (String × Value L) → X → X
  derived [] ctx = ctx
  derived ((name, v) ∷ vs) ctx = contexts.with_value (derived vs ctx) (Key.foreign name) v

  value-derived :
      IsContexts contexts
      → (vs : List (String × Value L)) (ctx : X)
      → contexts.value (derived vs ctx) Key.logger_key ≡ contexts.value ctx Key.logger_key
  value-derived laws [] ctx = refl
  value-derived laws ((name, v) ∷ vs) ctx =
      laws.value-with_foreign (derived vs ctx) name v ∙ value-derived laws vs ctx

-- `FromContext` gives back the logger that `WithContext` has stored last, whatever else is stored in
-- the context afterwards under other keys; where a nil logger was stored, or the context is nil, it
-- gives the fallback.
pub from_context-with_context :
    {X L : Type 0} (contexts : Contexts X (Value L))
    → IsContexts contexts
    → (ctx : X) (l fallback : Option (Logger L)) (vs : List (String × Value L))
    → (from_context contexts (some (derived contexts vs (with_context contexts ctx l))) fallback
        ≡ or_fallback fallback l)
      × (from_context contexts none fallback ≡ fallback)
unfolding from_context with_context
from_context-with_context contexts laws ctx l fallback vs = (
  ap (λ v. or_fallback fallback (held v))
      (value-derived contexts laws vs (with_context contexts ctx l)
        ∙ laws.value-with_value ctx Key.logger_key (logger l)),
  refl,
)
