-- ===== src/Handlers/Addresses/Laws.antt =====
-- Which address is meant, and when there is one.
use ida_rs_cli.Base.{
  ℕ, suc, ◌+◌, ◌<◌, Option, none, some, List, [], ◌∷◌, ◌++◌, map, String, select, ◌≡◌, refl, subst,
  ◌↔◌, arith, Every, Bool-cases, Option-cases, inl, inr,
}
use ida_rs_cli.Base.Numbers.{word}
use ida_rs_cli.Handlers.{Outcome, ok, err, Function, Name, Database}
use ida_rs_cli.Handlers.Xrefs.{ℤ, pos, negsuc}
use ida_rs_cli.Handlers.Addresses.{
  is_called, has_name, find_name, find_function, resolve_address_by_name, checked_add_signed, moved,
  base_of, resolve_address,
}

-- The addresses that a request can mean, the preferred one first: the number that it gives; else the
-- functions, then the other symbols, whose name contains the text.
abbrev pub candidates : Option Database → Option ℕ → Option String → List ℕ
candidates idb (some addr) name = addr ∷ []
candidates none none name = []
candidates (some db) none none = []
candidates (some db) none (some name) =
    map (λ f. f.start_address) (select (has_name name) db.functions)
    ++ map (λ n. n.address) (select (λ n. is_called name n.name) db.names)

-- What an offset adds, and what it takes away.
abbrev pub added : ℤ → ℕ
added (pos n) = n
added (negsuc n) = 0

abbrev pub taken : ℤ → ℕ
taken (pos n) = 0
taken (negsuc n) = suc n

-- `r` is the first candidate, moved by the offset without wrapping.
abbrev pub Means : Option Database → Option ℕ → Option String → ℤ → ℕ → Type 0
Means idb addr name offset r =
    (base : ℕ) × (rest : List ℕ) × (candidates idb addr name ≡ base ∷ rest)
    × (r + taken offset ≡ base + added offset)
    × (r < word)

abbrev first : List ℕ → Option ℕ
first [] = none
first (a ∷ rest) = some a

abbrev answer : Outcome ℕ → Option ℕ
answer (ok a) = some a
answer (err e) = none

find_function_lem :
    (name : String) (fs : List Function)
    → find_function name fs ≡ first (map (λ f. f.start_address) (select (has_name name) fs))
find_function_lem name [] = refl
find_function_lem name (f ∷ fs) = elim (Bool-cases (has_name name f)) [
  | inl t ↦ rw (t) refl
  | inr e ↦ rw (e) (find_function_lem name fs)
]

find_name_lem :
    (name : String) (ns : List Name)
    → find_name name ns ≡ first (map (λ n. n.address) (select (λ n. is_called name n.name) ns))
find_name_lem name [] = refl
find_name_lem name (n ∷ ns) = elim (Bool-cases (is_called name n.name)) [
  | inl t ↦ rw (t) refl
  | inr e ↦ rw (e) (find_name_lem name ns)
]

by_name :
    (fs ns : List ℕ) (a b : Option ℕ) (e : Outcome ℕ)
    → a ≡ first fs
    → b ≡ first ns
    → answer e ≡ none
    → answer (elim a [ some addr ↦ ok addr | none ↦ elim b [ some addr ↦ ok addr | none ↦ e ] ])
      ≡ first (fs ++ ns)
by_name (f ∷ fs) ns a b e p q h = rw (p) refl
by_name [] (n ∷ ns) a b e p q h = rw (p, q) refl
by_name [] [] a b e p q h = rw (p, q) h

base_of_lem :
    (idb : Option Database) (addr : Option ℕ) (name : Option String)
    → answer (base_of idb addr name) ≡ first (candidates idb addr name)
unfolding resolve_address_by_name
base_of_lem idb (some addr) name = refl
base_of_lem none none none = refl
base_of_lem none none (some name) = refl
base_of_lem (some db) none none = refl
base_of_lem (some db) none (some name) =
    by_name (map (λ f. f.start_address) (select (has_name name) db.functions))
      (map (λ n. n.address) (select (λ n. is_called name n.name) db.names)) _ _ _
      (find_function_lem name db.functions) (find_name_lem name db.names) refl

add-Exact :
    (base r : ℕ) (offset : ℤ)
    → base < word
    → (checked_add_signed base offset ≡ some r)
      ↔ ((r + taken offset ≡ base + added offset) × (r < word))
add-Exact base r (pos n) h = (λ e. (ground arith, ground arith), λ m. ground arith)
add-Exact base r (negsuc n) h = (λ e. (ground arith, ground arith), λ m. ground arith)

moved-ok :
    (offset : ℤ) (base r : ℕ)
    → (moved offset (ok base) ≡ ok r) ↔ (checked_add_signed base offset ≡ some r)
moved-ok offset base r = elim (Option-cases (checked_add_signed base offset)) [
  | inl n ↦ rw (n) (λ e. cc, λ e. cc)
  | inr (a, s) ↦ rw (s) (λ e. cc, λ e. cc)
]

head_eq : {a b : ℕ} {xs ys : List ℕ} → a ∷ xs ≡ b ∷ ys → b ≡ a
head_eq e = cc

moved-Means :
    (cs : List ℕ) (o : Outcome ℕ) (offset : ℤ) (r : ℕ)
    → answer o ≡ first cs
    → Every (λ a. a < word) cs
    → (moved offset o ≡ ok r) ↔ (
        (base : ℕ) × (rest : List ℕ) × (cs ≡ base ∷ rest)
        × (r + taken offset ≡ base + added offset)
        × (r < word))
moved-Means [] (ok a) offset r h below = cc
moved-Means [] (err e) offset r h below = (λ x. absurd (cc), λ (base, rest, e', x, y). absurd (cc))
moved-Means (c ∷ cs) (err e) offset r h below = cc
moved-Means (c ∷ cs) (ok a) offset r h below =
    let same : c ≡ a = cc in
    subst
      (λ k. (moved offset (ok k) ≡ ok r) ↔ (
        (base : ℕ) × (rest : List ℕ) × (c ∷ cs ≡ base ∷ rest)
        × (r + taken offset ≡ base + added offset)
        × (r < word)))
      same
      (
        λ m.
            let (sum, small) = (add-Exact c r offset below.0).0 ((moved-ok offset c r).0 m) in
            (c, cs, refl, sum, small),
        λ (base, rest, e, x, y). (moved-ok offset c r).1 (
            (add-Exact c r offset below.0).1
              (subst (λ b. (r + taken offset ≡ b + added offset) × (r < word)) (head_eq e) (x, y))),
      )

-- Which address a request gets: exactly the first candidate, moved by the offset without wrapping,
-- and none if there is no candidate or if the sum is not an address. Addresses are below 2 ^ 64.
pub resolve_address-Means :
    (idb : Option Database) (addr : Option ℕ) (name : Option String) (offset : ℤ) (r : ℕ)
    → Every (λ a. a < word) (candidates idb addr name)
    → (resolve_address idb addr name offset ≡ ok r) ↔ Means idb addr name offset r
unfolding resolve_address
resolve_address-Means idb addr name offset r below =
    moved-Means (candidates idb addr name) (base_of idb addr name) offset r
      (base_of_lem idb addr name) below
