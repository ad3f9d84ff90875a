-- ===== src/Common/Parts.antt =====
-- Python's `part in text` on texts as code points.
use mathlib.Core.Bool.{Bool, true, false, ◌&&◌, ◌||◌}
use mathlib.Core.List.{[], ◌∷◌}
use cime.Common.Tests.{Text, ◌==◌, nat_eq}
use cime.Common.Lists.{is_nil}

-- text.startswith(part)
unfoldable pub has_prefix : Text → Text → Bool
has_prefix [] s = true
has_prefix (a ∷ part) [] = false
has_prefix (a ∷ part) (c ∷ s) = a == c && has_prefix part s

-- part in text
unfoldable pub has_part : Text → Text → Bool
unfolding has_prefix
has_part part [] = is_nil part
has_part part (c ∷ s) = has_prefix part (c ∷ s) || has_part part s
