-- ===== src/Store/Places.antt =====
-- Places and numbers of the hours in memory: `hour_find` of core/api/zejf_api/src/zejf_data.c.
use mathlib.Core.Option.{some-injective}
use mathlib.Core.List.{map-append, append-nil}
use zejf_meteo.Common.{
  ℕ, zero, suc, ◌+◌, ◌==◌, ◌≡◌, refl, sym, ap, ◌∙◌, true, false, none, some, List, [], ◌∷◌, ◌++◌,
  map, get_elem?, set, take, drop, take-append-drop, has, has-append, Distinct, arith, inl, inr,
  Bool-cases, Option-cases, ==→eq, ==-of-eq,
}
use zejf_meteo.Hour.{DataHour}
use zejf_meteo.Store.{find_from_head, prioritise}

abbrev pub hour_ids : List DataHour → List ℕ
hour_ids = map λ h. h.hour_id

-- At most one hour of each number.
abbrev pub UniqueHours : List DataHour → Type 0
UniqueHours hs = Distinct (hour_ids hs)

find_from_head-none :
    (n : ℕ) (hs : List DataHour) → has n (hour_ids hs) ≡ false → find_from_head n hs ≡ none
unfolding find_from_head
find_from_head-none n [] e = refl
find_from_head-none n (x ∷ hs) e =
    let a : (x.hour_id == n) ≡ false = ground arith in
    let b : has n (hour_ids hs) ≡ false = ground arith in
    rw (find_from_head-none n hs b, find_from_head, a) refl

pub has-find_from_head :
    (n : ℕ) (hs : List DataHour) → find_from_head n hs ≡ none → has n (hour_ids hs) ≡ false
unfolding find_from_head
has-find_from_head n [] e = refl
has-find_from_head n (x ∷ hs) e = elim (Option-cases (find_from_head n hs)) [
  | inr (j, f) ↦ let no = rw (f, find_from_head) at e in cc
  | inl f ↦ elim (Bool-cases (x.hour_id == n)) [
    | inl t ↦ let no = rw (f, find_from_head, t) at e in cc
    | inr t ↦ let ih = has-find_from_head n hs f in ground arith
  ]
]

-- The place is that of an hour of the number.
pub find_from_head-hour_id :
    (n : ℕ) (hs : List DataHour) (i : ℕ)
    → find_from_head n hs ≡ some i
    → (h : DataHour) × (get_elem? hs i ≡ some h) × (h.hour_id ≡ n)
unfolding find_from_head
find_from_head-hour_id n [] i e = cc
find_from_head-hour_id n (x ∷ hs) i e = elim (Option-cases (find_from_head n hs)) [
  | inr (j, f) ↦
      let (h, at, same) = find_from_head-hour_id n hs j f in
      let place : j + 1 ≡ i = some-injective (j + 1) i (rw (f, find_from_head) at e) in
      let next : i ≡ suc j = omega arith in (h, ap (get_elem? (x ∷ hs)) next ∙ at, same)
  | inl f ↦ elim (Bool-cases (x.hour_id == n)) [
    | inl t ↦
        let place : 0 ≡ i = some-injective 0 i (rw (f, find_from_head, t) at e) in
        (x, ap (get_elem? (x ∷ hs)) (sym place), ==→eq x.hour_id n t)
    | inr t ↦ let no = rw (f, find_from_head, t) at e in cc
  ]
]

has-of-get_elem? :
    (hs : List DataHour) (i : ℕ) (h : DataHour)
    → get_elem? hs i ≡ some h
    → has h.hour_id (hour_ids hs) ≡ true
has-of-get_elem? [] i h e = cc
has-of-get_elem? (x ∷ hs) zero h e =
    let same : x ≡ h = some-injective x h e in
    let t : (h.hour_id == x.hour_id) ≡ true =
      ==-of-eq _ _ (ap (λ (y : DataHour). y.hour_id) (sym same)) in
    rw t refl
has-of-get_elem? (x ∷ hs) (suc i) h e = let ih = has-of-get_elem? hs i h e in ground arith

-- With one hour of each number, an hour of the number is found at its place.
pub find_from_head-place :
    (hs : List DataHour) (i : ℕ) (h : DataHour)
    → UniqueHours hs
    → get_elem? hs i ≡ some h
    → find_from_head h.hour_id hs ≡ some i
unfolding find_from_head
find_from_head-place [] i h u e = cc
find_from_head-place (x ∷ hs) zero h (fresh, u) e =
    let same : x ≡ h = some-injective x h e in
    let id : x.hour_id ≡ h.hour_id = ap (λ (y : DataHour). y.hour_id) same in
    rw (find_from_head-none h.hour_id hs (ground (arith, fresh)), find_from_head, ==-of-eq _ _ id)
      refl
find_from_head-place (x ∷ hs) (suc i) h (fresh, u) e =
    rw (find_from_head-place hs i h u e, find_from_head) (ap some (omega arith))

Distinct-insert :
    (ys xs : List ℕ) (x : ℕ)
    → Distinct (ys ++ xs)
    → has x (ys ++ xs) ≡ false
    → Distinct (ys ++ (x ∷ xs))
Distinct-insert [] xs x d h = (h, d)
Distinct-insert (y ∷ ys) xs x (fresh, d) h = (
  ground (arith, has-append y ys (x ∷ xs), has-append y ys xs, fresh),
  Distinct-insert ys xs x d (ground arith),
)

Distinct-swap : (xs ys : List ℕ) → Distinct (xs ++ ys) → Distinct (ys ++ xs)
Distinct-swap [] ys d = rw (append-nil ys) d
Distinct-swap (x ∷ xs) ys (fresh, d) =
    Distinct-insert ys xs x (Distinct-swap xs ys d)
      (ground (arith, has-append x ys xs, has-append x xs ys, fresh))

pub prioritise-UniqueHours :
    (i : ℕ) (hs : List DataHour) → UniqueHours hs → UniqueHours (prioritise i hs)
unfolding prioritise
prioritise-UniqueHours i hs u =
    let id : DataHour → ℕ = λ h. h.hour_id in
    let split : hour_ids hs ≡ hour_ids (take i hs) ++ hour_ids (drop i hs) =
      sym (ap hour_ids (take-append-drop i hs)) ∙ map-append id (take i hs) (drop i hs) in
    rw (map-append id (drop i hs) (take i hs))
      (Distinct-swap (hour_ids (take i hs)) (hour_ids (drop i hs)) (rw split at u))

pub get_elem?-drop :
    (i : ℕ) (hs zs : List DataHour) (h : DataHour)
    → get_elem? hs i ≡ some h
    → get_elem? (drop i hs ++ zs) 0 ≡ some h
get_elem?-drop zero [] zs h e = cc
get_elem?-drop zero (x ∷ hs) zs h e = e
get_elem?-drop (suc i) [] zs h e = cc
get_elem?-drop (suc i) (x ∷ hs) zs h e = get_elem?-drop i hs zs h e

-- An hour overwritten by one of the same number.
pub hour_ids-set :
    (hs : List DataHour) (i : ℕ) (h g : DataHour)
    → get_elem? hs i ≡ some h
    → g.hour_id ≡ h.hour_id
    → hour_ids (set hs i g) ≡ hour_ids hs
hour_ids-set [] i h g e same = refl
hour_ids-set (x ∷ hs) zero h g e same =
    let here : x ≡ h = some-injective x h e in
    ap (λ k. k ∷ hour_ids hs) (same ∙ ap (λ (y : DataHour). y.hour_id) (sym here))
hour_ids-set (x ∷ hs) (suc i) h g e same = ap (◌∷◌ x.hour_id) (hour_ids-set hs i h g e same)

pub get_elem?-set_hour :
    (hs : List DataHour) (i : ℕ) (h g : DataHour)
    → get_elem? hs i ≡ some h
    → get_elem? (set hs i g) i ≡ some g
get_elem?-set_hour [] i h g e = cc
get_elem?-set_hour (x ∷ hs) zero h g e = refl
get_elem?-set_hour (x ∷ hs) (suc i) h g e = get_elem?-set_hour hs i h g e
