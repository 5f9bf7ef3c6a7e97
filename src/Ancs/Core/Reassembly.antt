-- ===== src/Ancs/Core/Reassembly.antt =====
-- firmware/main/ancs_core.c, ancs_core_on_data_source: a response that arrives in pieces.
use open_apex.Base.{
  ℕ, ◌+◌, ◌^◌, ◌≤◌, ◌<◌, ◌≡◌, refl, sym, ap, ◌∙◌, arith, Bool, true, false, not, ◌&&◌, Bool-cases,
  ltb, ltb→lt, ltb-false, ◌==◌, inl, inr, ◌⊎◌, if◌then◌else◌, List, [], ◌∷◌, ◌++◌, length,
  length-append, take, take-append, append_assoc, append-nil, u32,
}
use mathlib.Core.List.{cons-ne-nil}
use open_apex.Ancs.{
  ancs_ds_buf_len, ancs_requested_attr_count, Notification, blank_notification, parse_incomplete,
  parse_complete, parse_attributes,
}
use open_apex.Ancs.Parse.{Attribute, response, Answers, told}
use open_apex.Ancs.Parse.Whole.{parse_attributes-response, parse_attributes-cut}
use open_apex.Ancs.Core.{
  raw_notification_source, raw_data_source, raw_control_point, AncsCore, Output, to_raw,
  to_control_point, to_notification, raw_tap, fill, pump_pending, complete_response, take_in,
  ancs_core_on_data_source,
}

-- The pieces one after another.
abbrev pub feed : AncsCore → List (List ℕ) → AncsCore × Bool × List Output
feed c [] = (c, true, [])
feed c (b ∷ bs) =
    let (d, ok, outs) = ancs_core_on_data_source c b in
    let (e, oks, rest) = feed d bs in (e, ok && oks, outs ++ rest)

abbrev pub joined : List (List ℕ) → List ℕ
joined [] = []
joined (b ∷ bs) = b ++ joined bs

-- The outputs but the copies of the data source bytes for the drive log.
abbrev pub untapped : List Output → List Output
untapped [] = []
untapped (to_raw raw_data_source bytes ∷ outs) = untapped outs
untapped (to_raw raw_notification_source bytes ∷ outs) =
    to_raw raw_notification_source bytes ∷ untapped outs
untapped (to_raw raw_control_point bytes ∷ outs) = to_raw raw_control_point bytes ∷ untapped outs
untapped (to_control_point bytes ∷ outs) = to_control_point bytes ∷ untapped outs
untapped (to_notification n removed ∷ outs) = to_notification n removed ∷ untapped outs

untapped-tap :
    (c : AncsCore) (bytes : List ℕ) (outs : List Output)
    → untapped (raw_tap c raw_data_source bytes ++ outs) ≡ untapped outs
untapped-tap c bytes outs = elim (Bool-cases c.on_raw) [
  | inl on ↦ rw on refl
  | inr off ↦ rw off refl
]

on_data_source_idle :
    (c : AncsCore) (b : List ℕ)
    → (b ≡ []) ⊎ (c.request_active ≡ false)
    → ancs_core_on_data_source c b ≡ (c, true, raw_tap c raw_data_source b)
unfolding ancs_core_on_data_source
on_data_source_idle c b (inl e) = rw e refl
on_data_source_idle c [] (inr e) = refl
on_data_source_idle c (x ∷ b) (inr e) =
    let no : (length (x ∷ b) == 0) ≡ false = ground arith in rw (no, e) refl

-- The guards of a piece that is taken in.
gate {ℓ} :
    {A : Type ℓ} (empty active : Bool) (x y : A)
    → empty ≡ false
    → active ≡ true
    → (if empty then x else if not active then x else y) ≡ y
gate true active x y h k = absurd (ground arith)
gate false true x y h k = refl
gate false false x y h k = absurd (ground arith)

pub on_data_source_takes :
    (c : AncsCore) (x : ℕ) (b : List ℕ)
    → c.request_active ≡ true
    → ancs_core_on_data_source c (x ∷ b) ≡ (
      (take_in c (x ∷ b)).0,
      (take_in c (x ∷ b)).1,
      raw_tap c raw_data_source (x ∷ b) ++ (take_in c (x ∷ b)).2,
    )
unfolding ancs_core_on_data_source
on_data_source_takes c x b h =
    gate (length (x ∷ b) == 0) c.request_active (c, true, raw_tap c raw_data_source (x ∷ b))
      (
        (take_in c (x ∷ b)).0,
        (take_in c (x ∷ b)).1,
        raw_tap c raw_data_source (x ∷ b) ++ (take_in c (x ∷ b)).2,
      )
      (ground arith) h

take_in_waits :
    (c : AncsCore) (b : List ℕ)
    → length c.ds_buf + length b ≤ ancs_ds_buf_len
    → parse_attributes true (c.ds_buf ++ b) ≡ parse_incomplete
    → take_in c b ≡ (record c { ds_buf = c.ds_buf ++ b }, true, [])
unfolding take_in
take_in_waits c b k e = rw (ltb-false ancs_ds_buf_len (length c.ds_buf + length b) k, e) refl

take_in_completes :
    (c : AncsCore) (b : List ℕ) (n : Notification) (off : ℕ)
    → length c.ds_buf + length b ≤ ancs_ds_buf_len
    → parse_attributes true (c.ds_buf ++ b) ≡ parse_complete n off
    → take_in c b ≡ complete_response c n
unfolding take_in complete_response
take_in_completes c b n off k e =
    rw (ltb-false ancs_ds_buf_len (length c.ds_buf + length b) k, e) refl

-- Empty pieces change nothing.
feed_empty :
    (c : AncsCore) (bs : List (List ℕ))
    → joined bs ≡ []
    → ((feed c bs).0 ≡ c) × ((feed c bs).1 ≡ true) × (untapped (feed c bs).2 ≡ [])
feed_empty c [] h = (refl, refl, refl)
feed_empty c ([] ∷ bs) h =
    let (i, j, k) = feed_empty c bs h in
    rw (on_data_source_idle c [] (inl refl), feed) (i, j, untapped-tap c [] (feed c bs).2 ∙ k)
feed_empty c ((x ∷ b) ∷ bs) h = absurd (cons-ne-nil x (b ++ joined bs) h)

untapped-append : (xs ys : List Output) → untapped (xs ++ ys) ≡ untapped xs ++ untapped ys
untapped-append [] ys = refl
untapped-append (to_raw raw_data_source bytes ∷ xs) ys = untapped-append xs ys
untapped-append (to_raw raw_notification_source bytes ∷ xs) ys =
    ap (◌∷◌ (to_raw raw_notification_source bytes)) (untapped-append xs ys)
untapped-append (to_raw raw_control_point bytes ∷ xs) ys =
    ap (◌∷◌ (to_raw raw_control_point bytes)) (untapped-append xs ys)
untapped-append (to_control_point bytes ∷ xs) ys =
    ap (◌∷◌ (to_control_point bytes)) (untapped-append xs ys)
untapped-append (to_notification n removed ∷ xs) ys =
    ap (◌∷◌ (to_notification n removed)) (untapped-append xs ys)

untapped-tap-append :
    (c : AncsCore) (bytes : List ℕ) (outs rest : List Output)
    → untapped ((raw_tap c raw_data_source bytes ++ outs) ++ rest) ≡ untapped outs ++ untapped rest
untapped-tap-append c bytes outs rest =
    untapped-append (raw_tap c raw_data_source bytes ++ outs) rest
    ∙ ap (λ (t : List Output). t ++ untapped rest) (untapped-tap c bytes outs)

complete_response-ds_buf :
    (c : AncsCore) (bytes : List ℕ) (n : Notification)
    → complete_response (record c { ds_buf = bytes }) n ≡ complete_response c n
unfolding complete_response
complete_response-ds_buf c bytes n = refl

complete_response-true : (c : AncsCore) (n : Notification) → (complete_response c n).1 ≡ true
unfolding complete_response
complete_response-true c n = refl

first_told :
    (b : Bool) (n : Notification) (rest : List Output)
    → b ≡ true
    → untapped ((if b then to_notification n false ∷ [] else []) ++ rest)
      ≡ to_notification n false ∷ untapped rest
first_told true n rest h = refl
first_told false n rest h = absurd (ground arith)

-- A client that hears notifications is told first.
complete_response_tells :
    (c : AncsCore) (n : Notification)
    → c.on_notification ≡ true
    → (rest : List Output) × (untapped (complete_response c n).2
        ≡ to_notification (fill c.tracked n) false ∷ rest)
unfolding complete_response
complete_response_tells c n h =
    let next = pump_pending (record c {
      stat_attrs_complete = u32 (c.stat_attrs_complete + 1);
      ds_buf = [];
      request_active = false;
    }) in
    (untapped next.1, first_told c.on_notification (fill c.tracked n) next.1 h)

length_zero {ℓ} : {A : Type ℓ} (xs : List A) → length xs ≡ 0 → xs ≡ []
length_zero [] h = refl
length_zero (x ∷ xs) h = absurd (omega arith)

-- The first piece of what is still to come leaves a cut, or it completes the response.
cut_or_whole :
    (xs ys whole : List ℕ)
    → xs ++ ys ≡ whole
    → ((length xs < length whole) × (take (length xs) whole ≡ xs)) ⊎ ((xs ≡ whole) × (ys ≡ []))
cut_or_whole xs ys whole e =
    let total : length xs + length ys ≡ length whole = sym (length-append xs ys) ∙ ap length e in
    elim (Bool-cases (ltb (length xs) (length whole))) [
      | inl cut ↦ inl (
        ltb→lt (length xs) (length whole) cut,
        ap (take (length xs)) (sym e) ∙ take-append (length xs) xs ys refl,
      )
      | inr all ↦
          let none_left : ys ≡ [] = length_zero ys (ground arith) in
          inr (sym (append-nil xs) ∙ ap (◌++◌ xs) (sym none_left) ∙ e, none_left)
    ]

-- The response is read once its last byte is there: what is left of it before is a cut.
feed-response :
    (uid : ℕ) (attrs : List Attribute)
    → uid < 2 ^ 32
    → Answers ancs_requested_attr_count attrs
    → length (response uid attrs) ≤ ancs_ds_buf_len
    → (c : AncsCore) (bs : List (List ℕ)) → c.request_active ≡ true
    → c.ds_buf ++ joined bs ≡ response uid attrs
    → length c.ds_buf < length (response uid attrs)
    → let n = told (record blank_notification { uid = uid }) attrs in
      ((feed c bs).0 ≡ (complete_response c n).0)
      × ((feed c bs).1 ≡ true)
      × (untapped (feed c bs).2 ≡ untapped (complete_response c n).2)
feed-response uid attrs h k l c [] active e short =
    let same : length c.ds_buf ≡ length (response uid attrs) =
      ap length (sym (append-nil c.ds_buf) ∙ e) in
    absurd (omega (arith, same, short))
feed-response uid attrs h k l c ([] ∷ bs) active e short =
    let (i, j, m) = feed-response uid attrs h k l c bs active e short in
    rw (on_data_source_idle c [] (inl refl), feed) (i, j, untapped-tap c [] (feed c bs).2 ∙ m)
feed-response uid attrs h k l c ((x ∷ b) ∷ bs) active e short =
    let n = told (record blank_notification { uid = uid }) attrs in
    let sum = length-append c.ds_buf (x ∷ b) in
    elim (cut_or_whole (c.ds_buf ++ (x ∷ b)) (joined bs) (response uid attrs)
      (append_assoc c.ds_buf (x ∷ b) (joined bs) ∙ e)) [
        | inl (less, front) ↦
            let d : AncsCore = record c { ds_buf = c.ds_buf ++ (x ∷ b) } in
            let (i, j, m) =
              feed-response uid attrs h k l d bs active
                (append_assoc c.ds_buf (x ∷ b) (joined bs) ∙ e) less in
            rw
              (
                on_data_source_takes c x b active,
                take_in_waits c (x ∷ b) (omega (arith, sum, less, l)) (
                    ap (parse_attributes true) (sym front)
                    ∙ parse_attributes-cut uid (length (c.ds_buf ++ (x ∷ b))) attrs k less),
                feed,
              )
              (
                i
                    ∙ ap (λ (t : AncsCore × Bool × List Output). t.0)
                        (complete_response-ds_buf c (c.ds_buf ++ (x ∷ b)) n),
                j,
                untapped-tap-append c (x ∷ b) [] (feed d bs).2
                    ∙ m
                    ∙ ap (λ (t : AncsCore × Bool × List Output). untapped t.2)
                        (complete_response-ds_buf c (c.ds_buf ++ (x ∷ b)) n),
              )
        | inr (same, nothing) ↦
            let d = (complete_response c n).0 in
            let (i, j, m) = feed_empty d bs nothing in
            rw
              (
                on_data_source_takes c x b active,
                take_in_completes c (x ∷ b) n (length (response uid attrs))
                    (omega (arith, sum, ap length same, l))
                    (ap (parse_attributes true) same ∙ parse_attributes-response uid attrs h k),
                complete_response-true c n,
                feed,
              )
              (
                i,
                j,
                untapped-tap-append c (x ∷ b) (complete_response c n).2 (feed d bs).2
                    ∙ ap (◌++◌ (untapped (complete_response c n).2)) m
                    ∙ append-nil (untapped (complete_response c n).2),
              )
      ]

-- A response that answers what was asked and fits the buffer is handled alike however it is split:
-- with a request in flight and an empty buffer, any pieces that join to the response leave the same
-- state and the same outputs (but the raw copies of the pieces) as the response in one piece, every
-- piece is accepted, and the first output is the notification that the response tells, completed
-- from the table. The identifier in flight does not matter: it is not compared with the response's.
pub ancs_core_on_data_source-split :
    (c : AncsCore) (uid : ℕ) (attrs : List Attribute) (bs : List (List ℕ))
    → uid < 2 ^ 32
    → Answers ancs_requested_attr_count attrs
    → length (response uid attrs) ≤ ancs_ds_buf_len
    → c.request_active ≡ true
    → c.on_notification ≡ true
    → c.ds_buf ≡ []
    → joined bs ≡ response uid attrs
    → let n = told (record blank_notification { uid = uid }) attrs in
      ((feed c bs).0 ≡ (feed c (response uid attrs ∷ [])).0)
      × ((feed c bs).1 ≡ true)
      × (untapped (feed c bs).2 ≡ untapped (feed c (response uid attrs ∷ [])).2)
      × ((rest : List Output) × (untapped (feed c bs).2
            ≡ to_notification (fill c.tracked n) false ∷ rest))
unfolding complete_response
ancs_core_on_data_source-split c uid attrs bs h k l active hears empty e =
    let n = told (record blank_notification { uid = uid }) attrs in
    let short : length c.ds_buf < length (response uid attrs) = rw empty (omega arith) in
    let (i, j, m) =
      feed-response uid attrs h k l c bs active (ap (λ (t : List ℕ). t ++ joined bs) empty ∙ e)
        short in
    let (i1, j1, m1) =
      feed-response uid attrs h k l c (response uid attrs ∷ []) active
        (ap (λ (t : List ℕ). t ++ joined (response uid attrs ∷ [])) empty
          ∙ append-nil (response uid attrs))
        short in
    let first = complete_response_tells c n hears in
    (i ∙ sym i1, j, m ∙ sym m1, (first.0, m ∙ first.1))
