-- ===== src/Common/Order.antt =====
-- Python's order of texts, by code points.
use mathlib.Core.Bool.{Bool, true, false}
use mathlib.Core.List.{[], ◌∷◌}
use dtd_server_apm.Common.Tests.{ltb, if◌then◌else◌}
use dtd_server_apm.Common.Lists.{Text}

unfoldable pub text_lt : Text → Text → Bool
text_lt s [] = false
text_lt [] (d ∷ t) = true
text_lt (c ∷ s) (d ∷ t) = if ltb c d then true else if ltb d c then false else text_lt s t
