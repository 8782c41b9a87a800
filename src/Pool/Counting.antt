-- ===== src/Pool/Counting.antt =====
-- How the lists of ids and the count of live workers move.
use ida_rs_cli.Base.{
  ℕ, suc, ◌+◌, ◌≤◌, ◌<◌, Bool, true, false, not, ◌||◌, List, [], ◌∷◌, ◌++◌, if◌then◌else◌, ◌==◌,
  nat_eq, length, select, length-select-le, ◌≡◌, refl, arith, Every,
}
use ida_rs_cli.Base.Dict
use ida_rs_cli.Base.Dict.Laws.{lookup-insert}
use ida_rs_cli.Pool.{
  PooledChild, ChildState, Slots, Scan, found, counted, is_dead, is_idle, state_of, contains,
  without, live, scan,
}

-- Ids that differ from one another.
abbrev pub AllDiffer : List ℕ → Type 0
AllDiffer [] = Unit
AllDiffer (x ∷ xs) = (contains x xs ≡ false) × AllDiffer xs

pub contains-select :
    (id : ℕ) (f : ℕ → Bool) (xs : List ℕ)
    → contains id xs ≡ false
    → contains id (select f xs) ≡ false
contains-select id f [] h = refl
contains-select id f (x ∷ xs) h = ground (arith, contains-select id f xs)

pub select-AllDiffer : (f : ℕ → Bool) (xs : List ℕ) → AllDiffer xs → AllDiffer (select f xs)
select-AllDiffer f [] h = tt
select-AllDiffer f (x ∷ xs) h =
    ground (arith, select-AllDiffer f xs h.1, contains-select x f xs h.0)

pub contains-append :
    (id : ℕ) (xs ys : List ℕ) → contains id (xs ++ ys) ≡ (contains id xs || contains id ys)
contains-append id [] ys = refl
contains-append id (x ∷ xs) ys = ground (arith, contains-append id xs ys)

pub contains-without_self : (id : ℕ) (xs : List ℕ) → contains id (without id xs) ≡ false
contains-without_self id [] = refl
contains-without_self id (x ∷ xs) = ground (arith, contains-without_self id xs)

pub append-AllDiffer :
    (xs : List ℕ) (id : ℕ) → AllDiffer xs → contains id xs ≡ false → AllDiffer (xs ++ id ∷ [])
append-AllDiffer [] id h k = (refl, tt)
append-AllDiffer (x ∷ xs) id h k =
    ground (arith, append-AllDiffer xs id h.1, contains-append x xs (id ∷ []))

pub length-without_lt :
    (id : ℕ) (xs : List ℕ) → contains id xs ≡ true → suc (length (without id xs)) ≤ length xs
length-without_lt id [] h = cc
length-without_lt id (x ∷ xs) h =
    ground (arith, length-without_lt id xs, length-select-le (λ y. not (y == id)) xs)

pub below-contains :
    (n id : ℕ) (xs : List ℕ) → Every (λ x. x < n) xs → n ≤ id → contains id xs ≡ false
below-contains n id [] h k = refl
below-contains n id (x ∷ xs) h k = ground (arith, below-contains n id xs h.1)

pub select-Every :
    (P : ℕ → Type 0) (f : ℕ → Bool) (xs : List ℕ) → Every P xs → Every P (select f xs)
select-Every P f [] h = tt
select-Every P f (x ∷ xs) h = ground (arith, select-Every P f xs h.1)

pub Every-contains :
    (n id : ℕ) (xs : List ℕ) → Every (λ x. x < n) xs → contains id xs ≡ true → id < n
Every-contains n id [] h k = cc
Every-contains n id (x ∷ xs) h k = ground (arith, Every-contains n id xs h.1)

pub Every-suc : (n : ℕ) (xs : List ℕ) → Every (λ x. x < n) xs → Every (λ x. x < n + 1) xs
Every-suc n [] h = tt
Every-suc n (x ∷ xs) h = (omega arith, Every-suc n xs h.1)

-- Dropping children lowers the count, and dropping dead ones leaves it.
pub live-select-le :
    (slots : Slots) (f : ℕ → Bool) (xs : List ℕ) → live slots (select f xs) ≤ live slots xs
unfolding live
live-select-le slots f [] = omega arith
live-select-le slots f (x ∷ xs) = ground (arith, live-select-le slots f xs)

-- A write that revives no dead slot does not raise the count.
pub live-insert-le :
    (id : ℕ) (c : PooledChild) (slots : Slots) (xs : List ℕ)
    → (is_dead (state_of slots id) ≡ true → is_dead c.state ≡ true)
    → live (Dict.insert id c slots) xs ≤ live slots xs
unfolding live
live-insert-le id c slots [] h = omega arith
live-insert-le id c slots (x ∷ xs) h = elim (nat_eq.dec id x) [
  | yes p ↦ ground (arith, live-insert-le id c slots xs h, lookup-insert x id c slots)
  | no p ↦ ground (arith, live-insert-le id c slots xs h, lookup-insert x id c slots)
]

-- A write to a slot that is not listed leaves the count.
pub live-insert_other :
    (id : ℕ) (c : PooledChild) (slots : Slots) (xs : List ℕ)
    → contains id xs ≡ false
    → live (Dict.insert id c slots) xs ≡ live slots xs
unfolding live
live-insert_other id c slots [] h = refl
live-insert_other id c slots (x ∷ xs) h =
    ground (arith, live-insert_other id c slots xs, lookup-insert x id c slots)

pub live-append :
    (slots : Slots) (xs : List ℕ) (id : ℕ) → live slots (xs ++ id ∷ []) ≤ live slots xs + 1
unfolding live
live-append slots [] id = ground arith
live-append slots (x ∷ xs) id = ground (arith, live-append slots xs id)

pub live-le-length : (slots : Slots) (xs : List ℕ) → live slots xs ≤ length xs
unfolding live
live-le-length slots [] = omega arith
live-le-length slots (x ∷ xs) = ground (arith, live-le-length slots xs)

-- What the scan of `lease` finds: an idle child that is listed, or no idle child and the count.
pub data Scanned (slots : Slots) (xs : List ℕ) (active : ℕ) : Scan → Type 0 where
  hit :
      (id : ℕ)
      → contains id xs ≡ true
      → is_idle (state_of slots id) ≡ true
      → Scanned slots xs active (found id)
  none_idle :
      (n : ℕ) (ids : List ℕ)
      → n ≡ active + live slots xs
      → Every (λ x. is_idle (state_of slots x) ≡ false) xs
      → Scanned slots xs active (counted n ids)

Scanned-cons :
    {slots : Slots} {xs : List ℕ} {active n : ℕ} {s : Scan} (x : ℕ)
    → Scanned slots xs n s
    → is_idle (state_of slots x) ≡ false
    → n ≡ active + (if is_dead (state_of slots x) then 0 else 1)
    → Scanned slots (x ∷ xs) active s
unfolding live
Scanned-cons x (hit id listed idle) busy at = hit id (ground arith) idle
Scanned-cons x (none_idle m ids count all) busy at = none_idle m ids (omega arith) (busy, all)

pub scan-Scanned :
    (slots : Slots) (xs : List ℕ) (active : ℕ) (dead_ids : List ℕ)
    → Scanned slots xs active (scan slots xs active dead_ids)
unfolding scan live
scan-Scanned slots [] active dead_ids = none_idle active dead_ids (omega arith) tt
scan-Scanned slots (x ∷ xs) active dead_ids =
    go (state_of slots x) refl (scan-Scanned slots xs active (dead_ids ++ x ∷ []))
      (scan-Scanned slots xs (active + 1) dead_ids)
  where
    go :
        (c : ChildState)
        → state_of slots x ≡ c
        → Scanned slots xs active (scan slots xs active (dead_ids ++ x ∷ []))
        → Scanned slots xs (active + 1) (scan slots xs (active + 1) dead_ids)
        → Scanned slots (x ∷ xs) active (scan slots (x ∷ xs) active dead_ids)
    go ChildState.idle e skipped counting = rw (e, scan) (hit x (ground arith) (rw e))
    go (ChildState.leased session) e skipped counting =
        rw (e, scan) (Scanned-cons x counting (rw e) (rw e))
    go ChildState.closing e skipped counting = rw (e, scan) (Scanned-cons x counting (rw e) (rw e))
    go ChildState.dead e skipped counting =
        rw (e, scan) (Scanned-cons x skipped (rw e) (rw e (omega arith)))
