-- ===== src/Mesh/Core/Friends/Laws.antt =====
-- The friend list as a map from rider ids: at most sixteen entries, one for each id, the cached tag
-- keys always those of the entries.
use open_apex.Base.{
  ℕ, zero, suc, ◌+◌, ◌<◌, ◌≡◌, ◌≢◌, refl, arith, ap, sym, ◌∙◌, false, Bool-cases, inl, inr, ◌⊎◌,
  Option, none, some, if◌then◌else◌, List, [], ◌∷◌, ◌++◌, length, set, get_or, All, All-append,
  bytes_eq, bytes_eq→eq, bytes_eq_self,
}
use open_apex.Mesh.Records.{MeshFriend}
use open_apex.Mesh.Core.{zero_friend}
use open_apex.Mesh.Core.Friends.{find_friend}

pub same_id-true : (x y : List ℕ) → x ≡ y → bytes_eq x y ≢ false
same_id-true x y e other = cc (bytes_eq_self x)

-- No friend of the list has the id.
abbrev pub Absent : List ℕ → List MeshFriend → Type 0
Absent id fs = All (λ f. f.id ≢ id) fs

-- Every id stands once.
abbrev pub Distinct : List MeshFriend → Type 0
Distinct [] = Unit {0}
Distinct (f ∷ fs) = Absent f.id fs × Distinct fs

-- The entry of an id.
abbrev pub entry : List ℕ → List MeshFriend → Option MeshFriend
entry id [] = none
entry id (f ∷ fs) = let rest = entry id fs in if bytes_eq f.id id then some f else rest

-- What `find_friend` returns, from any start index.
pub find_friend-shift :
    (i : ℕ) (fs : List MeshFriend) (id : List ℕ)
    → (find_friend i fs id ≡ none) × Absent id fs
      ⊎ ((k : ℕ) × (find_friend i fs id ≡ some (i + k))
          × (k < length fs)
          × ((get_or fs k zero_friend).id ≡ id))
unfolding find_friend
find_friend-shift i [] id = inl (refl, tt)
find_friend-shift i (f ∷ fs) id = elim (Bool-cases (bytes_eq f.id id)) [
  | inl same ↦ inr (0, rw same (ap some (omega arith)), omega arith, bytes_eq→eq f.id id same)
  | inr other ↦ elim (find_friend-shift (i + 1) fs id) [
    | inl (e, absent) ↦ inl (rw other e, ((λ h. absurd (same_id-true f.id id h other)), absent))
    | inr (k, e, lt, at) ↦ inr (suc k, rw other (e ∙ ap some (omega arith)), omega arith, at)
  ]
]

-- Two tests of different ids in either order.
pub entry_swap :
    (g f : MeshFriend) (id : List ℕ) (rest : Option MeshFriend)
    → g.id ≢ f.id
    → (if bytes_eq g.id id then some g else (if bytes_eq f.id id then some f else rest))
      ≡ (if bytes_eq f.id id then some f else (if bytes_eq g.id id then some g else rest))
entry_swap g f id rest ne = elim (Bool-cases (bytes_eq g.id id)) [
  | inl same ↦ elim (Bool-cases (bytes_eq f.id id)) [
    | inl same' ↦ absurd (ne (bytes_eq→eq g.id id same ∙ sym (bytes_eq→eq f.id id same')))
    | inr other ↦ rw (same, other)
  ]
  | inr other ↦ rw other
]

pub Absent-set :
    (fs : List MeshFriend) (f : MeshFriend) (k : ℕ) (id : List ℕ)
    → Absent id fs
    → f.id ≢ id
    → Absent id (set fs k f)
Absent-set [] f k id a ne = tt
Absent-set (g ∷ fs) f zero id a ne = (ne, a.1)
Absent-set (g ∷ fs) f (suc k) id a ne = (a.0, Absent-set fs f k id a.1 ne)

pub Absent-get_or :
    (fs : List MeshFriend) (k : ℕ) (id : List ℕ)
    → Absent id fs
    → k < length fs
    → (get_or fs k zero_friend).id ≢ id
Absent-get_or [] k id a h = elim h [ ]
Absent-get_or (g ∷ fs) zero id a h = a.0
Absent-get_or (g ∷ fs) (suc k) id a h = Absent-get_or fs k id a.1 (omega arith)

pub Distinct-set :
    (fs : List MeshFriend) (f : MeshFriend) (k : ℕ)
    → Distinct fs
    → k < length fs
    → (get_or fs k zero_friend).id ≡ f.id
    → Distinct (set fs k f)
Distinct-set [] f k d h e = tt
Distinct-set (g ∷ fs) f zero d h e = (rw (sym e) d.0, d.1)
Distinct-set (g ∷ fs) f (suc k) d h e = (
  Absent-set fs f k g.id d.0 (λ q. Absent-get_or fs k g.id d.0 (omega arith) (e ∙ q)),
  Distinct-set fs f k d.1 (omega arith) e,
)

pub Distinct-snoc :
    (fs : List MeshFriend) (f : MeshFriend)
    → Distinct fs
    → Absent f.id fs
    → Distinct (fs ++ (f ∷ []))
Distinct-snoc [] f d a = (tt, tt)
Distinct-snoc (g ∷ fs) f d a = (
  All-append (λ h. h.id ≢ g.id) fs (f ∷ []) d.0 ((λ e. a.0 (sym e)), tt),
  Distinct-snoc fs f d.1 a.1,
)

pub entry-snoc :
    (fs : List MeshFriend) (f : MeshFriend) (id : List ℕ)
    → Absent f.id fs
    → entry id (fs ++ (f ∷ [])) ≡ (if bytes_eq f.id id then some f else entry id fs)
entry-snoc [] f id a = refl
entry-snoc (g ∷ fs) f id a = rw (entry-snoc fs f id a.1) (entry_swap g f id (entry id fs) a.0)

-- Replacing an entry by one of the same id.
pub entry-set :
    (fs : List MeshFriend) (f : MeshFriend) (k : ℕ) (id : List ℕ)
    → Distinct fs
    → k < length fs
    → (get_or fs k zero_friend).id ≡ f.id
    → entry id (set fs k f) ≡ (if bytes_eq f.id id then some f else entry id fs)
entry-set [] f k id d h e = elim h [ ]
entry-set (g ∷ fs) f zero id d h e = elim (Bool-cases (bytes_eq f.id id)) [
  | inl same ↦ rw same
  | inr other ↦ rw (e, other)
]
entry-set (g ∷ fs) f (suc k) id d h e =
    rw (entry-set fs f k id d.1 (omega arith) e)
      (entry_swap g f id (entry id fs) (λ q. Absent-get_or fs k g.id d.0 (omega arith) (e ∙ sym q)))
