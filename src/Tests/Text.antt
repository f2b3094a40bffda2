-- ===== src/Tests/Text.antt =====
-- The string helpers of common/usg_common.cpp on concrete strings.
use hoststack.Prelude.{◌≡◌, refl, inr, none, some, [], ◌∷◌, arith}
use hoststack.Prelude.Text.{Text, codes}
use hoststack.Strings.Trim.{trim, blanks}
use hoststack.Strings.Trim.Ends.{TrimsTo, trim-Trimmed}
use hoststack.Strings.Join.{array_join, path_join}
use hoststack.Strings.Join.Contents.{path_join-eq-below_all}
use hoststack.Strings.Split.{str_split}
use hoststack.Strings.Split.Tokens.{ReturnsTokens, str_split-ReturnsTokens}
use hoststack.Strings.Split.RoundTrip.{space, str_split-array_join}
use hoststack.Libc.{strchr, after_span}

trim-Trimmed_example : TrimsTo blanks (codes "  log = 1 ") (trim (some (codes "  log = 1 ")) none)
trim-Trimmed_example = trim-Trimmed (codes "  log = 1 ") none

path_join-eq-below_all_example :
    path_join (some (codes "/merged/")) (codes "/app" ∷ []) ≡ some (some (codes "/merged/app"))
unfolding after_span strchr
path_join-eq-below_all_example =
    path_join-eq-below_all (codes "/merged/") (codes "/app" ∷ []) (inr (omega arith))

str_split-ReturnsTokens_example :
    ReturnsTokens space (codes " ls  -l") (str_split (some (codes " ls  -l")) space)
str_split-ReturnsTokens_example = str_split-ReturnsTokens space (codes " ls  -l")

str_split-array_join_example :
    (s : Text) × (array_join (codes "ls" ∷ codes "-l" ∷ []) space ≡ some (some s))
    × (str_split (some s) blanks ≡ some (some (codes "ls" ∷ codes "-l" ∷ [])))
unfolding strchr
str_split-array_join_example =
    str_split-array_join (codes "ls") (codes "-l" ∷ [])
      ((refl, (refl, tt)), ((refl, (refl, tt)), tt))
