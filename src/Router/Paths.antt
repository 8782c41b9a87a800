-- ===== src/Router/Paths.antt =====
-- src/daemon/router.rs: no two targets share an input or a database, and ids are fresh.
use ida_rs_cli.Base.{
  ℕ, ◌<◌, String, none, some, [], ◌∷◌, string_eq, nat_eq, ◌≡◌, ◌≢◌, ◌⊎◌, sym, ap, ◌∙◌, subst, arith,
  inl, inr, if_pos, if_neg, Option-cases,
}
use ida_rs_cli.Base.Dict
use ida_rs_cli.Base.Dict.{Dict}
use ida_rs_cli.Base.Dict.Laws.{lookup-insert, lookup-remove, All-lookup}
use ida_rs_cli.Base.Numbers.{word, parse-print}
use ida_rs_cli.Targets.{target_id, number_of}
use ida_rs_cli.Router.{WorkerEntry, Targets, find_load_conflict}

pub number_of-target_id : (n : ℕ) → n < word → number_of (target_id n) ≡ some n
unfolding nat_eq
number_of-target_id n h = parse-print n h

pub target_id_injective : (m n : ℕ) → m < word → n < word → target_id m ≡ target_id n → m ≡ n
target_id_injective m n h k q =
    let p : some m ≡ some n =
      sym (number_of-target_id m h) ∙ ap number_of q ∙ number_of-target_id n k in
    cc

-- A path and a database that no target uses.
abbrev pub IsFree : String → String → Targets → Type 0
IsFree canon_path db_identity d =
    (id : String) (e : WorkerEntry)
    → Dict.lookup id d ≡ some e
    → (e.canon_path ≢ canon_path) × (e.db_identity ≢ db_identity)

pub find_load_conflict-none :
    (canon_path db_identity : String) (d : Targets)
    → find_load_conflict canon_path db_identity d ≡ none
    → IsFree canon_path db_identity d
unfolding find_load_conflict Dict.lookup
find_load_conflict-none c i [] h id e at = absurd (cc)
find_load_conflict-none c i ((k, x) ∷ d) h id e at = elim (string_eq.dec k id) [
  | yes p ↦
      let q : x ≡ e = some_eq (rw (if_pos _ p) at at) in
      subst (λ y. (y.canon_path ≢ c) × (y.db_identity ≢ i)) q (ground arith)
  | no p ↦ find_load_conflict-none c i d (ground arith) id e (rw (if_neg _ p) at at)
]
  where
    some_eq : some x ≡ some e → x ≡ e
    some_eq q = cc

pub lookup-remove-some :
    (i j : String) (e : WorkerEntry) (d : Targets)
    → Dict.lookup i (Dict.remove j d) ≡ some e
    → Dict.lookup i d ≡ some e
lookup-remove-some i j e d h = ground (arith, lookup-remove i j d)

pub remove-IsFree :
    (canon_path db_identity id : String) (d : Targets)
    → IsFree canon_path db_identity d
    → IsFree canon_path db_identity (Dict.remove id d)
remove-IsFree c i id d free j e at = free j e (lookup-remove-some j id e d at)

-- Two targets that share a path or a database are one.
abbrev pub AllApart : Targets → Type 0
AllApart d =
    (i j : String) (e f : WorkerEntry)
    → Dict.lookup i d ≡ some e
    → Dict.lookup j d ≡ some f
    → (e.canon_path ≡ f.canon_path) ⊎ (e.db_identity ≡ f.db_identity)
    → i ≡ j

pub remove-AllApart : (id : String) (d : Targets) → AllApart d → AllApart (Dict.remove id d)
remove-AllApart id d apart i j e f at at' =
    apart i j e f (lookup-remove-some i id e d at) (lookup-remove-some j id f d at')

-- What a lookup finds after an insertion: the new entry, or an old one.
lookup-insert_cases :
    (i id : String) (x e : WorkerEntry) (d : Targets)
    → Dict.lookup i (Dict.insert id x d) ≡ some e
    → ((id ≡ i) × (x ≡ e)) ⊎ (Dict.lookup i d ≡ some e)
lookup-insert_cases i id x e d at = elim (string_eq.dec id i) [
  | yes p ↦ inl (p, found (rw (lookup-insert i id x d, if_pos _ p) at at))
  | no p ↦ inr (rw (lookup-insert i id x d, if_neg _ p) at at)
]
  where
    found : some x ≡ some e → x ≡ e
    found q = cc

shared_absurd :
    (x e f : WorkerEntry) {A : Type 0}
    → x ≡ e
    → (f.canon_path ≢ x.canon_path) × (f.db_identity ≢ x.db_identity)
    → (e.canon_path ≡ f.canon_path) ⊎ (e.db_identity ≡ f.db_identity)
    → A
shared_absurd x e f q free (inl p) = absurd (free.0 (sym (ap (λ y. y.canon_path) q ∙ p)))
shared_absurd x e f q free (inr p) = absurd (free.1 (sym (ap (λ y. y.db_identity) q ∙ p)))

pub insert-AllApart :
    (id : String) (x : WorkerEntry) (d : Targets)
    → IsFree x.canon_path x.db_identity d
    → AllApart d
    → AllApart (Dict.insert id x d)
insert-AllApart id x d free apart i j e f at at' shared =
    go (lookup-insert_cases i id x e d at) (lookup-insert_cases j id x f d at')
  where
    go :
        ((id ≡ i) × (x ≡ e)) ⊎ (Dict.lookup i d ≡ some e)
        → ((id ≡ j) × (x ≡ f)) ⊎ (Dict.lookup j d ≡ some f)
        → i ≡ j
    go (inl (p, q)) (inl (p', q')) = sym p ∙ p'
    go (inl (p, q)) (inr old) = shared_absurd x e f q (free j f old) shared
    go (inr old) (inl (p, q)) = shared_absurd x f e q (free i e old) (flipped shared)
      where
        flipped :
            (e.canon_path ≡ f.canon_path) ⊎ (e.db_identity ≡ f.db_identity)
            → (f.canon_path ≡ e.canon_path) ⊎ (f.db_identity ≡ e.db_identity)
        flipped (inl p) = inl (sym p)
        flipped (inr p) = inr (sym p)
    go (inr old) (inr old') = apart i j e f old old' shared

-- A target's id is its key, and of the form t<n>, with n below the next one.
pub record IsNumbered (next_id : ℕ) (id : String) (e : WorkerEntry) : Type 0 where
  pub number : ℕ
  pub below : number < next_id
  pub spelled : id ≡ target_id number
  pub named : e.info.id ≡ id

pub numbered_fresh :
    (next_id : ℕ) (d : Targets)
    → next_id < word
    → Dict.All (IsNumbered next_id) d
    → Dict.lookup (target_id next_id) d ≡ none
numbered_fresh next_id d small all = elim (Option-cases (Dict.lookup (target_id next_id) d)) [
  | inl absent ↦ absent
  | inr (e, at) ↦
      let n = All-lookup (IsNumbered next_id) (target_id next_id) d all at in
      let q = target_id_injective next_id n.number small (omega (arith, n.below)) n.spelled in
      absurd (omega (arith, n.below, q))
]
