-- ===== src/Nav/Street.antt =====
-- firmware/main/normalize.c, the name of the street: extract_street, pick_street_name,
-- abbreviate_street and truncate_street.
pub mod Fits
pub mod Fuel
use open_apex.Base.{
  ℕ, zero, suc, ◌+◌, ◌-◌, Bool, true, false, not, ◌||◌, ◌&&◌, ltb, leb, ◌==◌, if◌then◌else◌, Option,
  none, some, List, [], ◌∷◌, ◌++◌, map, length, take, drop, byte_at,
}
use open_apex.Nav.{nav_street_len}
use open_apex.Nav.Text.{codes, tolower, isdigit, isalpha, starts, strstr, strchr, strrchr, same}
use open_apex.Packet.{raw_title_str_len}
use open_apex.Nav.Maneuver.{to_lower}

abbrev pub normalize_street_max_len : ℕ
normalize_street_max_len = 18

pub data StreetPref : Type 0 where
  prefer_name : StreetPref
  prefer_route : StreetPref

abbrev pub normalize_street_pref_default : StreetPref
normalize_street_pref_default = prefer_name

-- The static variable before and after.
abbrev pub normalize_set_street_pref : StreetPref → StreetPref → StreetPref
normalize_set_street_pref old pref = pref

abbrev pub street_abbrevs : List (List ℕ × List ℕ)
street_abbrevs =
    (codes "street", codes "St")
    ∷ (codes "road", codes "Rd")
    ∷ (codes "avenue", codes "Ave")
    ∷ (codes "lane", codes "Ln")
    ∷ (codes "drive", codes "Dr")
    ∷ (codes "court", codes "Ct")
    ∷ (codes "place", codes "Pl")
    ∷ (codes "boulevard", codes "Blvd")
    ∷ (codes "highway", codes "Hwy")
    ∷ (codes "parade", codes "Pde")
    ∷ (codes "crescent", codes "Cres")
    ∷ (codes "terrace", codes "Tce")
    ∷ (codes "circuit", codes "Cct")
    ∷ (codes "close", codes "Cl")
    ∷ (codes "grove", codes "Gr")
    ∷ (codes "square", codes "Sq")
    ∷ (codes "esplanade", codes "Esp")
    ∷ (codes "parkway", codes "Pkwy")
    ∷ (codes "freeway", codes "Fwy")
    ∷ (codes "motorway", codes "Mwy")
    ∷ (codes "expressway", codes "Expy")
    ∷ (codes "circle", codes "Cir")
    ∷ (codes "mount", codes "Mt")
    ∷ (codes "north", codes "N")
    ∷ (codes "south", codes "S")
    ∷ (codes "east", codes "E")
    ∷ (codes "west", codes "W")
    ∷ []

-- Up to the next space: the word and what is left.
unfoldable pub word_of : List ℕ → List ℕ × List ℕ
word_of [] = ([], [])
word_of (c ∷ s) =
    let (word, rest) = word_of s in if c == b' ' then ([], c ∷ s) else (c ∷ word, rest)

-- The loop over the table; a word that is not in it stays as it is.
unfoldable pub abbrev_of : List (List ℕ × List ℕ) → List ℕ → List ℕ
unfolding tolower same
abbrev_of [] word = word
abbrev_of ((w, short) ∷ table) word =
    let rest = abbrev_of table word in if same (map tolower word) w then short else rest

-- The loop; `room` is what is left of the buffer. Each round takes a byte or more of the name, so
-- its length is enough fuel.
unfoldable pub abbreviate_from : ℕ → Bool → ℕ → List ℕ → List ℕ
unfolding word_of abbrev_of
abbreviate_from zero first room s = []
abbreviate_from (suc fuel) first room [] = []
abbreviate_from (suc fuel) first room (c ∷ s) =
    let space = c == b' ' in
    let word = (word_of (c ∷ s)).0 in
    let chunk =
      take room (if space then c ∷ [] else if first then word else abbrev_of street_abbrevs word) in
    let rest =
      abbreviate_from fuel (if space then first else false) (room - length chunk)
        (if space then s else (word_of (c ∷ s)).1) in
    if room == 0 then [] else chunk ++ rest

unfoldable pub abbreviate_street : List ℕ → List ℕ
unfolding abbreviate_from
abbreviate_street name = abbreviate_from (length name) true (nav_street_len - 1) name

-- The two counts of the loop.
unfoldable pub has_digit : List ℕ → Bool
unfolding isdigit
has_digit [] = false
has_digit (c ∷ name) = isdigit c || has_digit name

unfoldable pub letters : List ℕ → ℕ
unfolding isalpha
letters [] = 0
letters (c ∷ name) = if isalpha c then suc (letters name) else letters name

unfoldable pub is_route_name : List ℕ → Bool
unfolding to_lower starts has_digit letters
is_route_name name =
    let lower = to_lower name nav_street_len in
    if starts lower (codes "state highway")
      || starts lower (codes "route ")
      || starts lower (codes "highway ")
      || starts lower (codes "hwy ")
    then true
    else has_digit name && leb (letters name) 3

unfoldable pub skip_blanks : List ℕ → List ℕ
skip_blanks [] = []
skip_blanks (c ∷ s) = let rest = skip_blanks s in if c == b' ' then rest else c ∷ s

unfoldable pub strip_end : List ℕ → List ℕ
strip_end [] = []
strip_end (c ∷ s) = let rest = strip_end s in if c == b' ' && length rest == 0 then [] else c ∷ rest

unfoldable pub trim : List ℕ → List ℕ
unfolding skip_blanks strip_end
trim s = strip_end (skip_blanks s)

abbrev pub wants_route : StreetPref → Bool
wants_route prefer_route = true
wants_route prefer_name = false

abbrev pub bool_eq : Bool → Bool → Bool
bool_eq true b = b
bool_eq false b = not b

-- The choice between the two parts.
unfoldable pub pick_of : StreetPref → List ℕ → List ℕ → List ℕ
unfolding is_route_name
pick_of pref first second =
    let first_route = is_route_name first in
    let second_route = is_route_name second in
    let keeps_first = bool_eq first_route second_route || bool_eq first_route (wants_route pref) in
    let keep = if keeps_first then first else second in
    if length keep == 0 then (if keeps_first then second else first) else keep

unfoldable pub pick_street_name : StreetPref → List ℕ → List ℕ
unfolding strchr trim pick_of
pick_street_name pref name = elim (strchr name b'/') [
  | none ↦ name
  | some slash ↦
      let first = take (nav_street_len - 1) (take slash name) in
      let second = take (nav_street_len - 1) (drop (slash + 1) name) in
      let second_part : List ℕ = elim (strchr second b'/') [
        | none ↦ second
        | some more ↦ take more second
      ] in
      take (nav_street_len - 1) (pick_of pref (trim first) (trim second_part))
]

-- The loop over the abbreviations: the suffix that the last word is, or the empty text.
unfoldable pub suffix_of : List (List ℕ × List ℕ) → List ℕ → List ℕ
unfolding same
suffix_of [] last = []
suffix_of ((w, short) ∷ table) last =
    let rest = suffix_of table last in if same last short then short else rest

-- A name that is longer than its room.
unfoldable pub cut_name : ℕ → List ℕ → List ℕ
unfolding strrchr trim
cut_name room name =
    let cut = take room name in
    let whole : List ℕ = elim (strrchr cut b' ') [ none ↦ cut | some space ↦ take space cut ] in
    let mid_word = not (byte_at (drop room name) 0 == b' ') in
    trim (if mid_word then whole else cut)

unfoldable pub head_in : ℕ → List ℕ → List ℕ
head_in room name = if ltb room (length name) then cut_name room name else name

unfoldable pub fit_name : List ℕ → List ℕ → List ℕ
fit_name suffix name =
    if length suffix == 0
    then head_in normalize_street_max_len name
    else head_in (normalize_street_max_len - (length suffix + 1)) name ++ (b' ' ∷ suffix)

unfoldable pub truncate_street : List ℕ → List ℕ
truncate_street name =
    let fitted : List ℕ = elim (strrchr name b' ') [
      | none ↦ fit_name [] name
      | some last ↦
          let suffix = suffix_of street_abbrevs (drop (last + 1) name) in
          fit_name suffix (if length suffix == 0 then name else take last name)
    ] in
    if leb (length name) normalize_street_max_len then name else fitted

-- Up to the end of the line.
unfoldable pub line_of : ℕ → List ℕ → List ℕ
line_of zero s = []
line_of (suc room) [] = []
line_of (suc room) (c ∷ s) =
    let rest = line_of room s in if c == 13 || c == 10 then [] else c ∷ rest

unfoldable pub extract_street : List ℕ → ℕ → List ℕ
unfolding to_lower strstr line_of
extract_street text out_len =
    let lower = to_lower text raw_title_str_len in
    elim (strstr lower (codes "onto ")) [
      | some sep ↦ line_of (out_len - 1) (drop (sep + 5) text)
      | none ↦ elim (strstr lower (codes " on ")) [
        | some sep ↦ line_of (out_len - 1) (drop (sep + 4) text)
        | none ↦ []
      ]
    ]
