-- ===== src/Params/Regexp.antt =====
-- Go's package regexp, as far as the program calls it: a parameter of the modules that do.
use goto.Prelude.{Bool, Option, Text}

-- `compile` is none where regexp.Compile fails and regexp.MustCompile panics.
pub record RegexpLib : Type 1 where
  pub Regexp : Type 0
  pub compile : Text → Option Regexp
  pub match_string : Regexp → Text → Bool
