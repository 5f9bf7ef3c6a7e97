-- ===== src/Nav/Text.antt =====
-- The functions of string.h and ctype.h that the text of a turn is read with, in the C locale. A C
-- string is the list of its bytes before the NUL.
use Prim.Native.Char.{code}
use Prim.Native.String.{String}
use open_apex.Base.{
  ℕ, suc, ◌+◌, Bool, true, false, ◌||◌, ◌&&◌, leb, ◌==◌, if◌then◌else◌, Option, none, some, List,
  [], ◌∷◌,
}

-- The bytes of an ASCII literal.
abbrev pub codes : String → List ℕ
codes String.[] = []
codes (String.◌∷◌ c s) = code c ∷ codes s

unfoldable pub tolower : ℕ → ℕ
tolower c = if leb b'A' c && leb c b'Z' then c + 32 else c

unfoldable pub isdigit : ℕ → Bool
isdigit c = leb b'0' c && leb c b'9'

unfoldable pub isalpha : ℕ → Bool
isalpha c = leb b'A' c && leb c b'Z' || leb b'a' c && leb c b'z'

unfoldable pub isspace : ℕ → Bool
isspace c = c == b' ' || leb 9 c && leb c 13

-- `strncmp(s, prefix, strlen(prefix)) == 0`.
unfoldable pub starts : List ℕ → List ℕ → Bool
starts s [] = true
starts [] (p ∷ ps) = false
starts (c ∷ s) (p ∷ ps) = c == p && starts s ps

-- The pointer is an index.
unfoldable pub strstr : List ℕ → List ℕ → Option ℕ
unfolding starts
strstr [] needle = if starts [] needle then some 0 else none
strstr (c ∷ s) needle =
    let rest = strstr s needle in
    if starts (c ∷ s) needle then some 0 else elim rest [ none ↦ none | some i ↦ some (suc i) ]

unfoldable pub strchr : List ℕ → ℕ → Option ℕ
strchr [] c = none
strchr (x ∷ s) c =
    let rest = strchr s c in
    if x == c then some 0 else elim rest [ none ↦ none | some i ↦ some (suc i) ]

unfoldable pub strrchr : List ℕ → ℕ → Option ℕ
strrchr [] c = none
strrchr (x ∷ s) c =
    let rest = strrchr s c in
    elim rest [ none ↦ if x == c then some 0 else none | some i ↦ some (suc i) ]

-- `strcmp(s, t) == 0`.
unfoldable pub same : List ℕ → List ℕ → Bool
same [] [] = true
same [] (d ∷ t) = false
same (c ∷ s) [] = false
same (c ∷ s) (d ∷ t) = c == d && same s t
