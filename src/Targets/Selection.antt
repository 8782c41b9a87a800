-- ===== src/Targets/Selection.antt =====
-- src/daemon/router.rs: what a selector and the fallback choose, whatever the order of the map.
use ida_rs_cli.Base.{
  ℕ, suc, ◌≤◌, ◌<◌, Bool, true, false, ◌||◌, String, Option, none, some, List, [], ◌∷◌,
  if◌then◌else◌, ◌==◌, ltb, nat_eq, string_eq, length, ◌≡◌, refl, sym, ap, ◌∙◌, subst, arith, Every,
  Bool-cases, inl, inr,
}
use ida_rs_cli.Targets.{
  Entry, Resolved, ambiguous, rank, lowest_from, lowest_target_id, has_id, fits, matching,
  of_matches, of_active, resolve_among, resolve_selector,
}

-- Two iteration orders of one map.
pub data Shuffled {A : Type 0} : List A → List A → Type 0 where
  done : Shuffled [] []
  keeps : (x : A) {xs ys : List A} → Shuffled xs ys → Shuffled (x ∷ xs) (x ∷ ys)
  swaps : (x y : A) (xs : List A) → Shuffled (x ∷ y ∷ xs) (y ∷ x ∷ xs)
  chains : {xs ys zs : List A} → Shuffled xs ys → Shuffled ys zs → Shuffled xs zs

shuffle_refl : {A : Type 0} (xs : List A) → Shuffled xs xs
shuffle_refl [] = done
shuffle_refl (x ∷ xs) = keeps x (shuffle_refl xs)

has_id-Shuffled :
    (sel : String) {es es' : List Entry} → Shuffled es es' → has_id sel es ≡ has_id sel es'
has_id-Shuffled sel done = refl
has_id-Shuffled sel (keeps e p) = ap (λ b. e.0 == sel || b) (has_id-Shuffled sel p)
has_id-Shuffled sel (swaps e f es) = ground arith
has_id-Shuffled sel (chains p q) = has_id-Shuffled sel p ∙ has_id-Shuffled sel q

matching-Shuffled :
    (sel : String) {es es' : List Entry}
    → Shuffled es es'
    → Shuffled (matching sel es) (matching sel es')
matching-Shuffled sel done = done
matching-Shuffled sel (keeps e p) = elim (Bool-cases (fits sel e)) [
  | inl fit ↦ rw fit (keeps e.0 (matching-Shuffled sel p))
  | inr unfit ↦ rw unfit (matching-Shuffled sel p)
]
matching-Shuffled sel (swaps e f es) = elim (Bool-cases (fits sel e)) [
  | inl fit ↦ elim (Bool-cases (fits sel f)) [
    | inl both ↦ rw (fit, both) (swaps e.0 f.0 (matching sel es))
    | inr one ↦ rw (fit, one) (shuffle_refl _)
  ]
  | inr unfit ↦ rw unfit (shuffle_refl _)
]
matching-Shuffled sel (chains p q) = chains (matching-Shuffled sel p) (matching-Shuffled sel q)

length-Shuffled : {A : Type 0} {xs ys : List A} → Shuffled xs ys → length xs ≡ length ys
length-Shuffled done = refl
length-Shuffled (keeps x p) = ap suc (length-Shuffled p)
length-Shuffled (swaps x y xs) = refl
length-Shuffled (chains p q) = length-Shuffled p ∙ length-Shuffled q

-- More than one match is answered by their number only.
of_matches_many :
    (sel id : String) (ids ids' : List String)
    → length ids ≡ length ids'
    → of_matches sel (id ∷ ids) ≡ of_matches sel (id ∷ ids')
of_matches_many sel id [] [] h = refl
of_matches_many sel id [] (j ∷ js) h = absurd (omega arith)
of_matches_many sel id (i ∷ is) [] h = absurd (omega arith)
of_matches_many sel id (i ∷ is) (j ∷ js) h = ap (λ n. Resolved.err (ambiguous sel (suc n))) h

of_matches-Shuffled :
    (sel : String) {ids ids' : List String}
    → Shuffled ids ids'
    → of_matches sel ids ≡ of_matches sel ids'
of_matches-Shuffled sel done = refl
of_matches-Shuffled sel (keeps id {xs} {ys} p) = of_matches_many sel id xs ys (length-Shuffled p)
of_matches-Shuffled sel (swaps i j ids) = refl
of_matches-Shuffled sel (chains p q) = of_matches-Shuffled sel p ∙ of_matches-Shuffled sel q

resolve_among-Shuffled :
    (selector active : Option String) {es es' : List Entry}
    → Shuffled es es'
    → resolve_among selector active es ≡ resolve_among selector active es'
unfolding resolve_among
resolve_among-Shuffled none active p = refl
resolve_among-Shuffled (some sel) active p =
    let h = has_id-Shuffled sel p in
    let k = of_matches-Shuffled sel (matching-Shuffled sel p) in rw (h, k)

-- A selector resolves alike in whatever order the targets are listed.
pub resolve_selector-Shuffled :
    (selector active : Option String) {es es' : List Entry}
    → Shuffled es es'
    → resolve_selector selector active es ≡ resolve_selector selector active es'
unfolding resolve_selector
resolve_selector-Shuffled selector active {es} {es'} p = go es es' p
  where
    go :
        (es es' : List Entry)
        → Shuffled es es'
        → resolve_selector selector active es ≡ resolve_selector selector active es'
    go [] [] p = refl
    go [] (f ∷ fs) p = absurd (let h = length-Shuffled p in omega (arith, h))
    go (e ∷ es) [] p = absurd (let h = length-Shuffled p in omega (arith, h))
    go (e ∷ es) (f ∷ fs) p = resolve_among-Shuffled selector active p

has_id-matching :
    (sel id : String) (es : List Entry) (ids : List String)
    → matching sel es ≡ id ∷ ids
    → has_id id es ≡ true
has_id-matching sel id [] ids h = cc
has_id-matching sel id (e ∷ es) ids h = ground (arith, has_id-matching sel id es ids)

active_listed :
    (active : Option String) (es : List Entry) (id : String)
    → ((a : String) → active ≡ some a → has_id a es ≡ true)
    → of_active active ≡ Resolved.ok id
    → has_id id es ≡ true
active_listed none es id listed h = cc
active_listed (some a) es id listed h =
    let q : a ≡ id = cc in subst (λ i. has_id i es ≡ true) q (listed a refl)

matches_listed :
    (sel : String) (es : List Entry) (ids : List String) (id : String)
    → matching sel es ≡ ids
    → of_matches sel ids ≡ Resolved.ok id
    → has_id id es ≡ true
matches_listed sel es [] id m h = cc
matches_listed sel es (j ∷ []) id m h =
    let q : j ≡ id = cc in subst (λ i. has_id i es ≡ true) q (has_id-matching sel j es [] m)
matches_listed sel es (i ∷ j ∷ ids) id m h = cc

-- An id that a selector resolves to is one of the targets', if the active one is.
pub resolve_selector-has_id :
    (selector active : Option String) (es : List Entry) (id : String)
    → ((a : String) → active ≡ some a → has_id a es ≡ true)
    → resolve_selector selector active es ≡ Resolved.ok id
    → has_id id es ≡ true
unfolding resolve_selector resolve_among
resolve_selector-has_id selector active [] id listed h = cc
resolve_selector-has_id none active (e ∷ es) id listed h = active_listed active (e ∷ es) id listed h
resolve_selector-has_id (some sel) active (e ∷ es) id listed h =
    elim (Bool-cases (sel == "active" || sel == "")) [
      | inl current ↦ active_listed active (e ∷ es) id listed (rw current at h)
      | inr other ↦ elim (Bool-cases (has_id sel (e ∷ es))) [
        | inl known ↦
            let q : sel ≡ id = let k = rw (other, known) at h in cc in
            subst (λ i. has_id i (e ∷ es) ≡ true) q known
        | inr unknown ↦
            matches_listed sel (e ∷ es) (matching sel (e ∷ es)) id refl (rw (other, unknown) at h)
      ]
    ]

abbrev pub among : String → List String → Bool
among id [] = false
among id (j ∷ ids) = j == id || among id ids

behind : (j id : String) (ids : List String) → among id ids ≡ true → among id (j ∷ ids) ≡ true
behind j id ids h = ground (arith, h)

between :
    (i j id : String) (ids : List String)
    → among id (i ∷ ids) ≡ true
    → among id (i ∷ j ∷ ids) ≡ true
between i j id ids h = ground (arith, h)

lt_of_ltb : (m n : ℕ) → ltb m n ≡ true → m < n
lt_of_ltb m n h = ground arith

le_of_ltb : (m n : ℕ) → ltb m n ≡ false → n ≤ m
le_of_ltb m n h = ground arith

abbrev pub IsLeast : List String → String → Type 0
IsLeast ids id = (among id ids ≡ true) × Every (λ j. rank id ≤ rank j) ids

lowest_from_less :
    (best id : String) (ids : List String)
    → ltb (rank id) (rank best) ≡ true
    → lowest_from best (id ∷ ids) ≡ lowest_from id ids
unfolding lowest_from
lowest_from_less best id ids h = ap (λ b. lowest_from (if b then id else best) ids) h

lowest_from_more :
    (best id : String) (ids : List String)
    → ltb (rank id) (rank best) ≡ false
    → lowest_from best (id ∷ ids) ≡ lowest_from best ids
unfolding lowest_from
lowest_from_more best id ids h = ap (λ b. lowest_from (if b then id else best) ids) h

lowest_from-IsLeast :
    (best : String) (ids : List String) → IsLeast (best ∷ ids) (lowest_from best ids)
unfolding lowest_from
lowest_from-IsLeast best [] = (ground arith, (omega arith, tt))
lowest_from-IsLeast best (id ∷ ids) = elim (Bool-cases (ltb (rank id) (rank best))) [
  | inl less ↦
      let (here, (le, all)) = lowest_from-IsLeast id ids in
      subst (IsLeast (best ∷ id ∷ ids)) (sym (lowest_from_less best id ids less)) (
        behind best (lowest_from id ids) (id ∷ ids) here,
        (omega (arith, lt_of_ltb (rank id) (rank best) less, le), (le, all)),
      )
  | inr more ↦
      let (here, (le, all)) = lowest_from-IsLeast best ids in
      subst (IsLeast (best ∷ id ∷ ids)) (sym (lowest_from_more best id ids more)) (
        between best id (lowest_from best ids) ids here,
        (le, (omega (arith, le_of_ltb (rank id) (rank best) more, le), all)),
      )
]

-- The fallback is one of the ids, and none has a lower number; without ids there is none.
pub lowest_target_id-IsLeast :
    (id : String) (ids : List String) → lowest_target_id ids ≡ some id → IsLeast ids id
unfolding lowest_target_id
lowest_target_id-IsLeast id [] h = cc
lowest_target_id-IsLeast id (j ∷ ids) h =
    let q : lowest_from j ids ≡ id = cc in subst (IsLeast (j ∷ ids)) q (lowest_from-IsLeast j ids)
