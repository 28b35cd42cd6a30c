-- ===== src/Common/Memory.antt =====
-- `strtok_r` in an array of bytes: it stops at a NUL, and writes one behind each token.
use system_programming_cse.Common.Tests.{◌==◌, if◌then◌else◌}
use system_programming_cse.Common.Texts.{Text}
use system_programming_cse.Common.Strings.{elem, skip, token, Clean, token-Clean}
use Prim.Native.Nat.{ℕ}
use mathlib.Core.Path.{◌≡◌}
use mathlib.Core.Logic.{◌≢◌}
use mathlib.Core.Bool.{true, false}
use mathlib.Core.Option.{Option, none, some}
use mathlib.Core.List.{[], ◌∷◌, ◌++◌}
use native.Mathlib.Omega.{arith}

-- A token or NULL, the bytes that were passed, as they are now, and those from the saved pointer on.
pub record Cut : Type 0 where
  pub found : Option Text
  pub gone : Text
  pub rest : Text

-- The delimiters at the start of the array.
abbrev skipped : Text → Text → Text
skipped ds [] = []
skipped ds (c ∷ s) = if elem c ds then c ∷ skipped ds s else []

-- The array from the first of some bytes on.
abbrev from : Text → Text → Text
from ds [] = []
from ds (c ∷ s) = if elem c ds then c ∷ s else from ds s

abbrev close_token : Text → Text → Text → Option Cut
close_token gone t [] = none
close_token gone t (d ∷ r) =
    if d == 0
    then some (record { found = some t; gone = gone ++ t; rest = d ∷ r })
    else some (record { found = some t; gone = gone ++ (t ++ 0 ∷ []); rest = r })

abbrev open_token : Text → Text → Text → Option Cut
open_token ds gone [] = none
open_token ds gone (c ∷ s) =
    if c == 0
    then some (record { found = none; gone = gone; rest = c ∷ s })
    else close_token gone (token (0 ∷ ds) (c ∷ s)) (from (0 ∷ ds) (c ∷ s))

-- `none` where the search leaves the array.
unfoldable pub strtok_r : Text → Text → Option Cut
strtok_r ds s = open_token ds (skipped ds s) (skip ds s)

from-Clean :
    (ds s : Text) (d : ℕ) (r : Text) → Clean ds s → elem d ds ≡ true → from ds (s ++ d ∷ r) ≡ d ∷ r
from-Clean ds [] d r h e = ground arith
from-Clean ds (c ∷ s) d r h e = ground (arith, from-Clean ds s d r)

-- A word in front of a delimiter.
pub strtok_r-word :
    (ds : Text) (c : ℕ) (s : Text) (d : ℕ) (r : Text)
    → Clean (0 ∷ ds) (c ∷ s)
    → d ≢ 0
    → elem d ds ≡ true
    → strtok_r ds (c ∷ s ++ d ∷ r)
      ≡ some (record { found = some (c ∷ s); gone = c ∷ s ++ 0 ∷ []; rest = r })
unfolding strtok_r
strtok_r-word ds c s d r h n e =
    ground (arith, token-Clean (0 ∷ ds) s d r, from-Clean (0 ∷ ds) s d r)

-- At a NUL there is no token.
pub strtok_r_end :
    (ds r : Text)
    → elem 0 ds ≡ false
    → strtok_r ds (0 ∷ r) ≡ some (record { found = none; gone = []; rest = 0 ∷ r })
unfolding strtok_r
strtok_r_end ds r e = ground arith
