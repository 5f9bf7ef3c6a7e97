-- ===== src/Mesh/Core/Friends/Removal.antt =====
-- firmware/main/mesh_core.c, `mesh_core_friend_remove`: the lists that moving the last entry into
-- the place of another leaves.
use mathlib.Core.Path.{subst}
use open_apex.Base.{
  ℕ, zero, suc, ◌≤◌, ◌<◌, ◌≡◌, ◌≢◌, refl, arith, ap, sym, ◌∙◌, Bool-cases, inl, inr, none, some,
  if◌then◌else◌, List, [], ◌∷◌, ◌++◌, map, length, take-append, length-take, get_or_beyond, take,
  set, get_or, bytes_eq, bytes_eq→eq, bytes_eq-false, ltb, ltb→lt,
}
use open_apex.Mesh.Records.{MeshFriend}
use open_apex.Mesh.Core.{zero_friend}
use open_apex.Mesh.Core.Friends.Laws.{
  Absent, Distinct, entry, Absent-get_or, Absent-set, entry-snoc,
}

-- A list is its entries but the last, and the last.
module _ {ℓ} {A : Type ℓ} where
  take-last :
      (xs : List A) (n : ℕ) (z : A) → length xs ≡ suc n → take n xs ++ (get_or xs n z ∷ []) ≡ xs
  take-last [] n z h = absurd (omega arith)
  take-last (x ∷ []) zero z h = refl
  take-last (x ∷ y ∷ xs) zero z h = absurd (omega arith)
  take-last (x ∷ xs) (suc n) z h = ap (◌∷◌ x) (take-last xs n z (omega arith))

-- The entries but the last, with the last in place `i`.
abbrev pub swap_remove {ℓ} : {A : Type ℓ} → ℕ → List A → ℕ → A → List A
swap_remove n xs i z = take n (set xs i (get_or xs n z))

map-take {ℓ κ} :
    {A : Type ℓ} {B : Type κ} (g : A → B) (n : ℕ) (xs : List A)
    → take n (map g xs) ≡ map g (take n xs)
map-take g zero xs = refl
map-take g (suc n) [] = refl
map-take g (suc n) (x ∷ xs) = ap (◌∷◌ (g x)) (map-take g n xs)

pub map-get_or {ℓ κ} :
    {A : Type ℓ} {B : Type κ} (g : A → B) (xs : List A) (i : ℕ) (z : A) (y : B)
    → i < length xs
    → get_or (map g xs) i y ≡ g (get_or xs i z)
map-get_or g [] i z y h = elim h [ ]
map-get_or g (x ∷ xs) zero z y h = refl
map-get_or g (x ∷ xs) (suc i) z y h = map-get_or g xs i z y (omega arith)

pub map-set {ℓ κ} :
    {A : Type ℓ} {B : Type κ} (g : A → B) (xs : List A) (i : ℕ) (v : A)
    → set (map g xs) i (g v) ≡ map g (set xs i v)
map-set g [] i v = refl
map-set g (x ∷ xs) zero v = refl
map-set g (x ∷ xs) (suc i) v = ap (◌∷◌ (g x)) (map-set g xs i v)

pub map-swap_remove {ℓ κ} :
    {A : Type ℓ} {B : Type κ} (g : A → B) (n : ℕ) (xs : List A) (i : ℕ) (z : A) (y : B)
    → n < length xs
    → take n (set (map g xs) i (get_or (map g xs) n y)) ≡ map g (take n (set xs i (get_or xs n z)))
map-swap_remove g n xs i z y h =
    rw (map-get_or g xs n z y h, map-set g xs i (get_or xs n z))
      (map-take g n (set xs i (get_or xs n z)))

-- What the moved list is when the last entry is split off.
module _ {ℓ} {A : Type ℓ} where
  take-set-before :
      (n i : ℕ) (xs ys : List A) (v : A)
      → length xs ≡ n
      → i < n
      → take n (set (xs ++ ys) i v) ≡ set xs i v
  take-set-before n i [] ys v e h = absurd (omega arith)
  take-set-before zero i (x ∷ xs) ys v e h = absurd (omega arith)
  take-set-before (suc n) zero (x ∷ xs) ys v e h = ap (◌∷◌ v) (take-append n xs ys (omega arith))
  take-set-before (suc n) (suc i) (x ∷ xs) ys v e h =
      ap (◌∷◌ x) (take-set-before n i xs ys v (omega arith) (omega arith))

  take-set-behind :
      (n i : ℕ) (xs ys : List A) (v : A) → length xs ≡ n → n ≤ i → take n (set (xs ++ ys) i v) ≡ xs
  take-set-behind zero i [] ys v e h = refl
  take-set-behind (suc n) i [] ys v e h = absurd (omega arith)
  take-set-behind zero i (x ∷ xs) ys v e h = absurd (omega arith)
  take-set-behind (suc n) zero (x ∷ xs) ys v e h = absurd (omega arith)
  take-set-behind (suc n) (suc i) (x ∷ xs) ys v e h =
      ap (◌∷◌ x) (take-set-behind n i xs ys v (omega arith) (omega arith))

  get_or-before :
      (i : ℕ) (xs ys : List A) (z : A) → i < length xs → get_or (xs ++ ys) i z ≡ get_or xs i z
  get_or-before i [] ys z h = elim h [ ]
  get_or-before zero (x ∷ xs) ys z h = refl
  get_or-before (suc i) (x ∷ xs) ys z h = get_or-before i xs ys z (omega arith)

Absent-snoc :
    (id : List ℕ) (xs : List MeshFriend) (l : MeshFriend)
    → Absent id (xs ++ (l ∷ []))
    → Absent id xs × (l.id ≢ id)
Absent-snoc id [] l h = (tt, h.0)
Absent-snoc id (x ∷ xs) l h = let r = Absent-snoc id xs l h.1 in ((h.0, r.0), r.1)

Distinct-init :
    (xs : List MeshFriend) (l : MeshFriend)
    → Distinct (xs ++ (l ∷ []))
    → Distinct xs × Absent l.id xs
Distinct-init [] l d = (tt, tt)
Distinct-init (x ∷ xs) l d =
    let r = Distinct-init xs l d.1 in
    let a = Absent-snoc x.id xs l d.0 in ((a.0, r.0), ((λ e. a.1 (sym e)), r.1))

-- No entry: `entry` finds none.
pub entry-Absent : (id : List ℕ) (xs : List MeshFriend) → Absent id xs → entry id xs ≡ none
entry-Absent id [] a = refl
entry-Absent id (x ∷ xs) a = elim (Bool-cases (bytes_eq x.id id)) [
  | inl same ↦ absurd (a.0 (bytes_eq→eq x.id id same))
  | inr other ↦ rw other (entry-Absent id xs a.1)
]

-- The list whose last entry has been split off: replace entry `i` of `xs` by `l`.
module _ (l : MeshFriend) where
  Distinct-replace :
      (xs : List MeshFriend) (i : ℕ) → Distinct xs → Absent l.id xs → Distinct (set xs i l)
  Distinct-replace [] i d a = tt
  Distinct-replace (x ∷ xs) zero d a = (a.1, d.1)
  Distinct-replace (x ∷ xs) (suc i) d a =
      (Absent-set xs l i x.id d.0 (λ e. a.0 (sym e)), Distinct-replace xs i d.1 a.1)

  entry-replace :
      (xs : List MeshFriend) (i : ℕ) (id : List ℕ)
      → Distinct xs
      → Absent l.id xs
      → i < length xs
      → entry id (set xs i l) ≡ (
          if bytes_eq l.id id
          then some l
          else (if bytes_eq (get_or xs i zero_friend).id id then none else entry id xs))
  entry-replace [] i id d a h = elim h [ ]
  entry-replace (x ∷ xs) zero id d a h = elim (Bool-cases (bytes_eq x.id id)) [
    | inl same ↦ rw (same, entry-Absent id xs (rw (sym (bytes_eq→eq x.id id same)) d.0)) refl
    | inr other ↦ rw other
  ]
  entry-replace (x ∷ xs) (suc i) id d a h = elim (Bool-cases (bytes_eq x.id id)) [
    | inl same ↦
        let at = bytes_eq→eq x.id id same in
        rw
          (
            same,
            bytes_eq-false l.id id (λ e. a.0 (at ∙ sym e)),
            bytes_eq-false (get_or xs i zero_friend).id id
                (λ e. Absent-get_or xs i x.id d.0 (omega arith) (e ∙ sym at)),
          )
          refl
    | inr other ↦ rw other (entry-replace xs i id d.1 a.1 (omega arith))
  ]

  -- Both cases of a removal, the last entry split off.
  Distinct-removed :
      (xs : List MeshFriend) (i : ℕ)
      → Distinct (xs ++ (l ∷ []))
      → Distinct (take (length xs) (set (xs ++ (l ∷ [])) i l))
  Distinct-removed xs i d = elim (Bool-cases (ltb i (length xs))) [
    | inl h ↦
        rw (take-set-before (length xs) i xs (l ∷ []) l refl (ltb→lt i (length xs) h))
          (Distinct-replace xs i (Distinct-init xs l d).0 (Distinct-init xs l d).1)
    | inr h ↦
        rw (take-set-behind (length xs) i xs (l ∷ []) l refl (ground (arith, h)))
          (Distinct-init xs l d).0
  ]

  entry-removed :
      (xs : List MeshFriend) (i : ℕ) (id : List ℕ)
      → Distinct (xs ++ (l ∷ []))
      → i ≤ length xs
      → entry id (take (length xs) (set (xs ++ (l ∷ [])) i l)) ≡ (
          if bytes_eq (get_or (xs ++ (l ∷ [])) i zero_friend).id id
          then none
          else entry id (xs ++ (l ∷ [])))
  entry-removed xs i id d b =
      let r = Distinct-init xs l d in
      elim (Bool-cases (ltb i (length xs))) [
        | inl h ↦
            let lt = ltb→lt i (length xs) h in
            rw
              (
                take-set-before (length xs) i xs (l ∷ []) l refl lt,
                entry-replace xs i id r.0 r.1 lt,
                get_or-before i xs (l ∷ []) zero_friend lt,
                entry-snoc xs l id r.1,
              )
              (elim (Bool-cases (bytes_eq l.id id)) [
                | inl same ↦ rw (
                  same,
                  bytes_eq-false (get_or xs i zero_friend).id id
                      (λ e. Absent-get_or xs i l.id r.1 lt (e ∙ sym (bytes_eq→eq l.id id same))),
                )
                | inr other ↦ rw other
              ])
        | inr h ↦
            rw
              (
                take-set-behind (length xs) i xs (l ∷ []) l refl (ground (arith, h)),
                get_or_beyond i 0 xs (l ∷ []) zero_friend (ground (arith, h)),
                entry-snoc xs l id r.1,
              )
              (elim (Bool-cases (bytes_eq l.id id)) [
                | inl same ↦ rw same (entry-Absent id xs (rw (sym (bytes_eq→eq l.id id same)) r.1))
                | inr other ↦ rw other
              ])
      ]

-- The same for a list that is not split yet.
module _ (fs : List MeshFriend) (n i : ℕ) (count : length fs ≡ suc n) where
  init : List MeshFriend
  init = take n fs

  last : MeshFriend
  last = get_or fs n zero_friend

  split : init ++ (last ∷ []) ≡ fs
  unfolding init last
  split = take-last fs n zero_friend count

  length-init : length init ≡ n
  unfolding init
  length-init = length-take n fs (omega arith)

  pub Distinct-swap_remove : Distinct fs → Distinct (take n (set fs i (get_or fs n zero_friend)))
  unfolding last
  Distinct-swap_remove d =
      subst (λ (m : ℕ). Distinct (take m (set fs i last))) length-init
        (subst (λ (xs : List MeshFriend). Distinct (take (length init) (set xs i last))) split
          (Distinct-removed last init i (subst Distinct (sym split) d)))

  pub entry-swap_remove :
      (id : List ℕ)
      → Distinct fs
      → i < length fs
      → entry id (take n (set fs i (get_or fs n zero_friend)))
        ≡ (if bytes_eq (get_or fs i zero_friend).id id then none else entry id fs)
  unfolding last
  entry-swap_remove id d h =
      subst
        (λ (m : ℕ).
          entry id (take m (set fs i last))
          ≡ (if bytes_eq (get_or fs i zero_friend).id id then none else entry id fs))
        length-init
        (subst
          (λ (xs : List MeshFriend).
            entry id (take (length init) (set xs i last))
            ≡ (if bytes_eq (get_or xs i zero_friend).id id then none else entry id xs))
          split
          (entry-removed last init i id (subst Distinct (sym split) d)
            (omega (arith, length-init, count, h))))
