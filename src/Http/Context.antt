-- ===== src/Http/Context.antt =====
-- core/src/context.rs, and the middleware of core/src/http/routes.rs that provides a context.
use better_commerce.Prelude.{Option, none, some, Text}

pub data Principal : Type 0 where
  anonymous : Principal
  system : (actor : Text) → Principal
  authenticated : (subject : Text) → Principal

pub record RequestContext : Type 0 where
  pub principal : Principal

abbrev pub with_principal : Principal → RequestContext
with_principal principal = record { principal = principal }

-- `principal()`.
abbrev pub principal_of : RequestContext → Principal
principal_of context = context.principal

abbrev pub default_context : RequestContext
default_context = with_principal anonymous

-- The extension that the handlers read: the one of the request, or the default.
abbrev pub provide_anonymous_context : Option RequestContext → RequestContext
provide_anonymous_context none = default_context
provide_anonymous_context (some context) = context
