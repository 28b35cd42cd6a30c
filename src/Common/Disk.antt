-- ===== src/Common/Disk.antt =====
-- The files of a directory: names and contents. A content holds no NUL byte.
use system_programming_cse.Common.Tests.{if◌then◌else◌}
use system_programming_cse.Common.Texts.{Text, text_eq}
use mathlib.Core.Option.{Option, none, some}
use mathlib.Core.List.{List, [], ◌∷◌}

abbrev pub Files : Type 0
Files = List (Text × Text)

abbrev pub find : Text → Files → Option Text
find name [] = none
find name ((n, s) ∷ fs) = if text_eq n name then some s else find name fs

abbrev pub store : Text → Text → Files → Files
store name content [] = (name, content) ∷ []
store name content ((n, s) ∷ fs) =
    if text_eq n name then (n, content) ∷ fs else (n, s) ∷ store name content fs

-- What `find` finds, or an empty content.
abbrev pub content_of : Text → Files → Text
content_of name fs = elim (find name fs) [ none ↦ [] | some s ↦ s ]
