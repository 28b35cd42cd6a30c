-- ===== src/Grades/Tests.antt =====
-- A file of three lines.
use system_programming_cse.Common.{◌≡◌, refl, true, some, arith, codes, Text}
use system_programming_cse.Grades.{display_page}
use system_programming_cse.Grades.Page.{display_page-page}

abbrev three : Text
three = codes "a\nb\nc\n"

second_page : display_page true three 2 2 ≡ some (codes "c\n")
unfolding display_page
second_page = refl

behind_the_end : display_page true three 2 3 ≡ some (codes "End of file reached.\n")
unfolding display_page
behind_the_end = refl

display_page-page_example : display_page true three 1 2 ≡ some (codes "b")
display_page-page_example = display_page-page three 1 1 (omega arith) (omega arith)
