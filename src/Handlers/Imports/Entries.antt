-- ===== src/Handlers/Imports/Entries.antt =====
-- That the loop over the entry points ends, also when idalib's iterator does not.
use ida_rs_cli.Base.{
  ℕ, zero, suc, ◌+◌, ◌<◌, true, Option, none, some, List, [], ◌∷◌, ◌++◌, map, String, length,
  length-append, contains, nat_eq, ◌≡◌, refl, ap, subst, sym, ◌⊎◌, inl, inr, arith, Every,
  Every-append, Bool-cases, Option-cases,
}
use mathlib.Core.Option as Option
use ida_rs_cli.Base.Numbers.{word}
use ida_rs_cli.Base.Distinct.{AllDistinct, length-AllDistinct, push-AllDistinct}
use ida_rs_cli.Handlers.{ok, Database, hex}
use ida_rs_cli.Handlers.Imports.{entries_from, handle_entrypoints}

module _ (next : ℕ → Option ℕ) where
  -- The answers of the iterator from the call `calls` on begin with `addrs`.
  abbrev pub Answers : ℕ → List ℕ → Type 0
  Answers calls [] = Unit
  Answers calls (a ∷ rest) = (next calls ≡ some a) × Answers (suc calls) rest

  -- The first answers, which differ from one another, up to the end or the first that comes again.
  pub record AreEntries (addrs : List ℕ) : Type 0 where
    pub answers : Answers 0 addrs
    pub distinct : AllDistinct addrs
    pub ended :
        (next (length addrs) ≡ none)
        ⊎ ((a : ℕ) × (next (length addrs) ≡ some a) × (contains addrs a ≡ true))

  Answers-push :
      (calls : ℕ) (addrs : List ℕ) (a : ℕ)
      → Answers calls addrs
      → next (calls + length addrs) ≡ some a
      → Answers calls (addrs ++ a ∷ [])
  Answers-push calls [] a h e = (subst (λ n. next n ≡ some a) (omega arith) e, tt)
  Answers-push calls (x ∷ xs) a h e =
      (h.0, Answers-push (suc calls) xs a h.1 (subst (λ n. next n ≡ some a) (omega arith) e))

  map-push : (xs : List ℕ) (a : ℕ) → map hex xs ++ hex a ∷ [] ≡ map hex (xs ++ a ∷ [])
  map-push [] a = refl
  map-push (x ∷ xs) a = ap (λ l. hex x ∷ l) (map-push xs a)

  -- The loop returns the texts of the entries.
  abbrev Returns : Option (List String) → Type 0
  Returns result = (addrs : List ℕ) × (result ≡ some (map hex addrs)) × AreEntries addrs

  entries-Returns :
      ((n a : ℕ) → next n ≡ some a → a < word)
      → (fuel : ℕ) (seen : List ℕ) → Answers 0 seen
      → AllDistinct seen
      → Every (λ a. a < word) seen
      → word < fuel + length seen
      → Returns (entries_from next fuel (length seen) seen (map hex seen))
  unfolding entries_from
  entries-Returns small zero seen ans d below enough =
      absurd (omega (arith, enough, length-AllDistinct word seen below d))
  entries-Returns small (suc fuel) seen ans d below enough =
      elim (Option-cases (next (length seen))) [
        | inl last ↦
            rw (last, entries_from)
              (seen, refl, record { answers = ans; distinct = d; ended = inl last })
        | inr (a, e) ↦ elim (Bool-cases (contains seen a)) [
          | inl again ↦
              rw (e, entries_from, again)
                (seen, refl, record { answers = ans; distinct = d; ended = inr (a, e, again) })
          | inr new ↦
              let longer : length (seen ++ a ∷ []) ≡ suc (length seen) =
                omega (arith, length-append seen (a ∷ [])) in
              rw (e, entries_from, new, sym longer, map-push seen a)
                (entries-Returns small fuel (seen ++ a ∷ [])
                  (Answers-push 0 seen a ans (subst (λ n. next n ≡ some a) (omega arith) e))
                  (push-AllDistinct seen a d new)
                  (Every-append (λ x. x < word) seen (a ∷ []) below (small (length seen) a e, tt))
                  (omega (arith, longer, enough)))
        ]
      ]

-- Reading the entry points comes to an end, even when idalib's iterator never does, and gives the
-- first answers of the iterator, which differ from one another, up to the end or to the first that
-- comes again. Addresses are below 2 ^ 64.
pub handle_entrypoints-Ends :
    (db : Database)
    → ((n a : ℕ) → db.next_entry n ≡ some a → a < word)
    → (addrs : List ℕ) × (handle_entrypoints (some db) ≡ some (ok (map hex addrs)))
      × AreEntries db.next_entry addrs
unfolding handle_entrypoints
handle_entrypoints-Ends db small =
    let (addrs, e, are) =
      entries-Returns db.next_entry small (suc word) [] tt tt tt (omega arith) in
    (addrs, ap (λ r. Option.map (λ texts. ok texts) r) e, are)
