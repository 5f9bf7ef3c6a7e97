-- ===== src/Ancs/Parse/Fuel.antt =====
-- firmware/main/ancs_core.c, parse_attributes: its loop ends within the fuel that it is given.
use open_apex.Base.{
  ℕ, zero, suc, ◌+◌, ◌<◌, ◌≡◌, refl, arith, Bool, not, ◌||◌, Bool-cases, inl, inr, ltb,
  if◌then◌else◌, List, length, length-drop, take, drop, byte_at,
}
use open_apex.Ancs.{Notification, rd_u16, asked, store, parse_loop}

-- Any fuel above the number of bytes that are left gives the same result.
pub parse_loop_fuel :
    (n m : ℕ) (has_out : Bool) (seen off : ℕ) (out : Notification) (rest : List ℕ)
    → length rest < n
    → length rest < m
    → parse_loop n has_out seen off out rest ≡ parse_loop m has_out seen off out rest
unfolding parse_loop
parse_loop_fuel zero m has_out seen off out rest h k = absurd (omega arith)
parse_loop_fuel (suc n) zero has_out seen off out rest h k = absurd (omega arith)
parse_loop_fuel (suc n) (suc m) has_out seen off out rest h k =
    let alen = rd_u16 (drop 1 rest) in
    elim (Bool-cases (ltb (length rest) 3)) [
      | inl short ↦ rw short refl
      | inr long ↦
          rw
            (parse_loop_fuel n m has_out
              (if not has_out || asked (byte_at rest 0) then suc seen else seen) (off + (3 + alen))
              (if has_out then store out (byte_at rest 0) (take alen (drop 3 rest)) else out)
              (drop (3 + alen) rest) (ground (arith, length-drop (3 + alen) rest))
              (ground (arith, length-drop (3 + alen) rest)))
            refl
    ]
