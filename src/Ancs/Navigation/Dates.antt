-- ===== src/Ancs/Navigation/Dates.antt =====
-- firmware/main/ancs_nav.c, ancs_nav_parse_date: dates as the phone writes them, "yyyyMMdd'T'HHmmSS".
use open_apex.Base.{
  ℕ, zero, suc, not, ◌||◌, ◌==◌, ◌+◌, ◌/◌, ◌≤◌, ◌≡◌, ◌↔◌, refl, arith, false, ltb, ltb-false, some,
  none, true, ap, ◌∙◌, Bool-cases, Option-cases, inl, inr, drop, byte_at, [], List, ◌∷◌, length,
}
use open_apex.Ancs.Navigation.{digits, NavDate, out_of_range, ancs_nav_parse_date}
use open_apex.Ancs.Navigation.Digits.{
  digit, two, digits-two, digits-four, digits-two_back, digits-four_back,
}

abbrev pub written : NavDate → List ℕ → List ℕ
written d rest =
    digit (d.year / 1000)
    ∷ digit (d.year / 100)
    ∷ digit (d.year / 10)
    ∷ digit d.year
    ∷ two d.month (two d.day (b'T' ∷ two d.hour (two d.minute (two d.second rest))))

-- The dates of the calendar as far as the code tells, a leap second included.
pub record IsDate (d : NavDate) : Type 0 where
  pub year_range : d.year ≤ 9999
  pub month_first : 1 ≤ d.month
  pub month_last : d.month ≤ 12
  pub day_first : 1 ≤ d.day
  pub day_last : d.day ≤ 31
  pub hour_last : d.hour ≤ 23
  pub minute_last : d.minute ≤ 59
  pub second_last : d.second ≤ 60

no_date : {d : NavDate} → none ≡ some d → ⊥
no_date e = cc

date_of : {t d : NavDate} → some t ≡ some d → t ≡ d
date_of e = cc

out_of_range-false : (d : NavDate) → IsDate d → out_of_range d ≡ false
out_of_range-false d h = ground (
  arith, h.month_first, h.month_last, h.day_first, h.day_last, h.hour_last, h.minute_last,
  h.second_last,
)

-- What a date that was read consists of.
ancs_nav_parse_date_parts :
    (date : List ℕ) (d : NavDate)
    → ancs_nav_parse_date date ≡ some d
    → ((byte_at date 8 == b'T') ≡ true)
      × (digits date 4 ≡ some d.year)
      × (digits (drop 4 date) 2 ≡ some d.month)
      × (digits (drop 6 date) 2 ≡ some d.day)
      × (digits (drop 9 date) 2 ≡ some d.hour)
      × (digits (drop 11 date) 2 ≡ some d.minute)
      × (digits (drop 13 date) 2 ≡ some d.second)
      × (out_of_range d ≡ false)
unfolding ancs_nav_parse_date
ancs_nav_parse_date_parts date d e =
    elim (Bool-cases (ltb (length date) 15 || not (byte_at date 8 == b'T'))) [
      | inl short ↦ absurd (no_date (rw short at e))
      | inr long ↦
          let letter : (byte_at date 8 == b'T') ≡ true = ground (arith, long) in
          elim (Option-cases (digits date 4)) [
            | inl bad ↦ absurd (no_date (rw (long, bad) at e))
            | inr (y, e_y) ↦ elim (Option-cases (digits (drop 4 date) 2)) [
              | inl bad ↦ absurd (no_date (rw (long, e_y, bad) at e))
              | inr (mo, e_mo) ↦ elim (Option-cases (digits (drop 6 date) 2)) [
                | inl bad ↦ absurd (no_date (rw (long, e_y, e_mo, bad) at e))
                | inr (dd, e_dd) ↦ elim (Option-cases (digits (drop 9 date) 2)) [
                  | inl bad ↦ absurd (no_date (rw (long, e_y, e_mo, e_dd, bad) at e))
                  | inr (h, e_h) ↦ elim (Option-cases (digits (drop 11 date) 2)) [
                    | inl bad ↦ absurd (no_date (rw (long, e_y, e_mo, e_dd, e_h, bad) at e))
                    | inr (mi, e_mi) ↦ elim (Option-cases (digits (drop 13 date) 2)) [
                      | inl bad ↦ absurd (no_date (rw (long, e_y, e_mo, e_dd, e_h, e_mi, bad) at e))
                      | inr (se, e_se) ↦
                          let t : NavDate = record {
                            year = y;
                            month = mo;
                            day = dd;
                            hour = h;
                            minute = mi;
                            second = se;
                          } in
                          elim (Bool-cases (out_of_range t)) [
                            | inl wrong ↦
                                absurd (
                                  no_date (rw (long, e_y, e_mo, e_dd, e_h, e_mi, e_se, wrong) at e))
                            | inr fine ↦
                                let same : t ≡ d =
                                  date_of
                                    (rw (long, e_y, e_mo, e_dd, e_h, e_mi, e_se, fine) at e) in
                                rw (← same) (letter, e_y, e_mo, e_dd, e_h, e_mi, e_se, fine)
                          ]
                    ]
                  ]
                ]
              ]
            ]
          ]
    ]

-- A date in range is read from its fifteen characters.
parse-written :
    (d : NavDate) (rest : List ℕ) → IsDate d → ancs_nav_parse_date (written d rest) ≡ some d
unfolding ancs_nav_parse_date
parse-written d rest h =
    let s1 = two d.second rest in
    let s2 = two d.minute s1 in
    let s3 = two d.hour s2 in
    let s4 = two d.day (b'T' ∷ s3) in
    let s5 = two d.month s4 in
    let long : ltb (length (written d rest)) 15 ≡ false =
      ltb-false (length (written d rest)) 15 (omega arith) in
    rw
      (
        long,
        digits-four d.year s5 h.year_range,
        digits-two d.month s4 (omega (arith, h.month_last)),
        digits-two d.day (b'T' ∷ s3) (omega (arith, h.day_last)),
        digits-two d.hour s2 (omega (arith, h.hour_last)),
        digits-two d.minute s1 (omega (arith, h.minute_last)),
        digits-two d.second rest (omega (arith, h.second_last)),
        out_of_range-false d h,
      )
      refl

out_of_range-IsDate : (d : NavDate) → d.year ≤ 9999 → out_of_range d ≡ false → IsDate d
out_of_range-IsDate d y h = record {
  year_range = y;
  month_first = ground (arith, h);
  month_last = ground (arith, h);
  day_first = ground (arith, h);
  day_last = ground (arith, h);
  hour_last = ground (arith, h);
  minute_last = ground (arith, h);
  second_last = ground (arith, h);
}

drop_more : (n m : ℕ) (date : List ℕ) → m ≡ n + 2 → drop 2 (drop n date) ≡ drop m date
drop_more zero m date h = rw h refl
drop_more (suc n) zero date h = absurd (omega arith)
drop_more (suc n) (suc m) [] h = refl
drop_more (suc n) (suc m) (c ∷ date) h = drop_more n m date (omega arith)

letter_opens :
    (n : ℕ) (s : List ℕ) → (byte_at s n == b'T') ≡ true → drop n s ≡ b'T' ∷ drop (suc n) s
letter_opens n [] h = cc
letter_opens zero (c ∷ s) h = ap (λ (t : ℕ). t ∷ s) (ground (arith, h))
letter_opens (suc n) (c ∷ s) h = letter_opens n s h

-- The characters of one number, and what follows them.
two_at :
    (n m v : ℕ) (date : List ℕ)
    → m ≡ n + 2
    → digits (drop n date) 2 ≡ some v
    → drop n date ≡ two v (drop m date)
two_at n m v date h e = digits-two_back (drop n date) v e ∙ ap (two v) (drop_more n m date h)

ancs_nav_parse_date_back :
    (date : List ℕ) (d : NavDate)
    → ancs_nav_parse_date date ≡ some d
    → IsDate d × (date ≡ written d (drop 15 date))
ancs_nav_parse_date_back date d e =
    let (letter, y, mo, dd, h, mi, se, fine) = ancs_nav_parse_date_parts date d e in
    let (four, year) = digits-four_back date d.year y in
    let s2 =
      two_at 11 13 d.minute date refl mi ∙ ap (two d.minute) (two_at 13 15 d.second date refl se) in
    let s3 =
      letter_opens 8 date letter
      ∙ ap (λ s. b'T' ∷ s) (two_at 9 11 d.hour date refl h ∙ ap (two d.hour) s2) in
    let s4 =
      two_at 4 6 d.month date refl mo
      ∙ ap (two d.month) (two_at 6 8 d.day date refl dd ∙ ap (two d.day) s3) in
    (
      out_of_range-IsDate d year fine,
      four
          ∙ ap
              (λ s.
                digit (d.year / 1000)
                ∷ digit (d.year / 100)
                ∷ digit (d.year / 10)
                ∷ digit d.year
                ∷ s)
              s4,
    )

-- A text is read as a date exactly when the date is in range and the text begins with the fifteen
-- characters that write it. What follows the fifteen characters is not looked at, although the
-- header says that anything but the exact shape is refused.
pub ancs_nav_parse_date-written :
    (date : List ℕ) (d : NavDate)
    → (ancs_nav_parse_date date ≡ some d) ↔ IsDate d × (date ≡ written d (drop 15 date))
ancs_nav_parse_date-written date d = (
  λ e. ancs_nav_parse_date_back date d e,
  λ h. ap ancs_nav_parse_date h.1 ∙ parse-written d (drop 15 date) h.0,
)
