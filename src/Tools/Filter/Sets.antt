-- ===== src/Tools/Filter/Sets.antt =====
-- The sets of names that the filter keeps: membership after each operation.
use ida_rs_cli.Base.{
  Bool, true, false, not, ◌&&◌, ◌||◌, List, [], ◌∷◌, String, contains, ◌==◌, string_eq, ◌≡◌, refl,
  sym, ap, ◌∙◌, inl, inr, Bool-cases, if_pos, if_neg,
}
use ida_rs_cli.Tools.Filter.{insert, remove, insert_all, remove_all}

pub eq_true : (s t : String) → (s == t) ≡ true → s ≡ t
eq_true s t h = elim (string_eq.dec s t) [
  | yes p ↦ p
  | no n ↦ absurd (let q : (s == t) ≡ false = if_neg (string_eq.dec s t) n true false in cc)
]

eq_sym : (s t : String) → (s == t) ≡ (t == s)
eq_sym s t = elim (string_eq.dec s t) [
  | yes p ↦
      if_pos (string_eq.dec s t) p true false ∙ sym (if_pos (string_eq.dec t s) (sym p) true false)
  | no n ↦
      if_neg (string_eq.dec s t) n true false
      ∙ sym (if_neg (string_eq.dec t s) (λ q. n (sym q)) true false)
]

eq_false : (s t x : String) → (s == t) ≡ false → (s == x) ≡ true → (t == x) ≡ false
eq_false s t x f e = eq_sym t x ∙ rw (eq_true s x e) at f

drop_first : (n c : Bool) → (c && not n) ≡ ((n || c) && not n)
drop_first true true = refl
drop_first true false = refl
drop_first false c = refl

pub contains-insert :
    (name : String) (set : List String) (x : String)
    → contains (insert name set) x ≡ (name == x || contains set x)
unfolding insert
contains-insert name set x = elim (Bool-cases (contains set name)) [
  | inl t ↦ rw t (elim (Bool-cases (name == x)) [
    | inl e ↦ let u : contains set x ≡ true = rw (eq_true name x e) at t in rw (e, u) refl
    | inr f ↦ rw f refl
  ])
  | inr f ↦ rw f refl
]

pub contains-remove :
    (name : String) (set : List String) (x : String)
    → contains (remove name set) x ≡ (contains set x && not (name == x))
unfolding remove
contains-remove name [] x = refl
contains-remove name (s ∷ set) x = elim (Bool-cases (s == name)) [
  | inl t ↦
      rw (t, remove, eq_true s name t)
        (contains-remove name set x ∙ drop_first (name == x) (contains set x))
  | inr f ↦
      rw (f, remove)
        (elim (Bool-cases (s == x)) [
          | inl e ↦ rw (e, eq_false s name x f e) refl
          | inr g ↦ rw g (contains-remove name set x)
        ])
]

pub or_assoc : (a b c : Bool) → (a || (b || c)) ≡ ((a || b) || c)
or_assoc true b c = refl
or_assoc false b c = refl

pub or_swap : (a b c : Bool) → (a || (b || c)) ≡ (b || (a || c))
or_swap true true c = refl
or_swap true false c = refl
or_swap false b c = refl

pub and_not_or : (c a b : Bool) → ((c && not a) && not b) ≡ (c && not (a || b))
and_not_or true true b = refl
and_not_or true false b = refl
and_not_or false a b = refl

pub and_true : (b : Bool) → (b && true) ≡ b
and_true true = refl
and_true false = refl

pub contains-insert_all :
    (ns set : List String) (x : String)
    → contains (insert_all ns set) x ≡ (contains ns x || contains set x)
contains-insert_all [] set x = refl
contains-insert_all (n ∷ ns) set x =
    contains-insert_all ns (insert n set) x
    ∙ ap (λ b. contains ns x || b) (contains-insert n set x)
    ∙ or_swap (contains ns x) (n == x) (contains set x)
    ∙ or_assoc (n == x) (contains ns x) (contains set x)

pub contains-remove_all :
    (ns set : List String) (x : String)
    → contains (remove_all ns set) x ≡ (contains set x && not (contains ns x))
contains-remove_all [] set x = sym (and_true (contains set x))
contains-remove_all (n ∷ ns) set x =
    contains-remove_all ns (remove n set) x
    ∙ ap (λ b. b && not (contains ns x)) (contains-remove n set x)
    ∙ and_not_or (contains set x) (n == x) (contains ns x)
