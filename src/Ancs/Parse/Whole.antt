-- ===== src/Ancs/Parse/Whole.antt =====
-- firmware/main/ancs_core.c, parse_attributes: what it reads of a response, whole or cut short.
use open_apex.Base.{
  ℕ, zero, suc, ◌/◌, ◌^◌, ◌≤◌, ◌<◌, ◌≡◌, refl, ap, ◌∙◌, arith, true, lt→ltb, ltb-false, List, [],
  ◌∷◌, length, length-append, take, u8,
}
use open_apex.Ancs.{
  ancs_requested_attr_count, blank_notification, rd_u32, parse_incomplete, parse_complete,
  parse_attributes,
}
use open_apex.Ancs.Parse.Rounds.{rd_u32_lem, parse_loop-attributes, parse_loop-cut}
use open_apex.Ancs.Parse.{Attribute, attributes_bytes, response, Answers, told}

attributes_bytes-length : (attrs : List Attribute) → length attrs ≤ length (attributes_bytes attrs)
attributes_bytes-length [] = omega arith
attributes_bytes-length (a ∷ attrs) =
    omega (arith, attributes_bytes-length attrs, length-append a.value (attributes_bytes attrs))

-- A response that holds the five attributes that were asked for, in any order and with any others
-- between them, is read to its end and tells what its attributes tell.
pub parse_attributes-response :
    (uid : ℕ) (attrs : List Attribute)
    → uid < 2 ^ 32
    → Answers ancs_requested_attr_count attrs
    → parse_attributes true (response uid attrs)
      ≡ parse_complete
          (told (record blank_notification { uid = uid }) attrs)
          (length (response uid attrs))
unfolding parse_attributes
parse_attributes-response uid attrs h k =
    let rest = attributes_bytes attrs in
    rw (ltb-false (length (response uid attrs)) 5 (omega arith), rd_u32_lem uid rest h)
      (parse_loop-attributes (suc (length (response uid attrs))) 5 0 5
          (record blank_notification { uid = uid }) attrs refl k
          (omega (arith, attributes_bytes-length attrs))
        ∙ ap (parse_complete (told (record blank_notification { uid = uid }) attrs)) (omega arith))

parse_attributes_short :
    (bytes : List ℕ) → length bytes < 5 → parse_attributes true bytes ≡ parse_incomplete
unfolding parse_attributes
parse_attributes_short bytes h = rw (lt→ltb (length bytes) 5 h) refl

-- No cut of such a response is ever taken for a whole one or for a broken one.
pub parse_attributes-cut :
    (uid k : ℕ) (attrs : List Attribute)
    → Answers ancs_requested_attr_count attrs
    → k < length (response uid attrs)
    → parse_attributes true (take k (response uid attrs)) ≡ parse_incomplete
unfolding parse_attributes
parse_attributes-cut uid zero attrs h l =
    parse_attributes_short (take 0 (response uid attrs)) (omega arith)
parse_attributes-cut uid (suc zero) attrs h l =
    parse_attributes_short (take 1 (response uid attrs)) (omega arith)
parse_attributes-cut uid (suc (suc zero)) attrs h l =
    parse_attributes_short (take 2 (response uid attrs)) (omega arith)
parse_attributes-cut uid (suc (suc (suc zero))) attrs h l =
    parse_attributes_short (take 3 (response uid attrs)) (omega arith)
parse_attributes-cut uid (suc (suc (suc (suc zero)))) attrs h l =
    parse_attributes_short (take 4 (response uid attrs)) (omega arith)
parse_attributes-cut uid (suc (suc (suc (suc (suc k))))) attrs h l =
    let rest = take k (attributes_bytes attrs) in
    let seen_so_far = u8 uid ∷ u8 (uid / 2 ^ 8) ∷ u8 (uid / 2 ^ 16) ∷ u8 (uid / 2 ^ 24) ∷ rest in
    rw (ltb-false (length (0 ∷ seen_so_far)) 5 (omega arith)) (
      parse_loop-cut (suc (length (0 ∷ seen_so_far))) 5 0 5 k
        (record blank_notification { uid = rd_u32 seen_so_far }) attrs refl h (omega arith))
