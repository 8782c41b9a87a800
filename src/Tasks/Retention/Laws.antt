-- ===== src/Tasks/Retention/Laws.antt =====
-- What sweeping and reclaiming drop. Reclaiming goes by the sorted list of the settled entries.
use ida_rs_cli.Base.{
  ℕ, suc, ◌+◌, ◌-◌, ◌≤◌, ◌<◌, Bool, true, false, ◌||◌, String, none, some, List, [], ◌∷◌,
  if◌then◌else◌, ltb, ◌==◌, string_eq, length, take, ◌≡◌, refl, inl, inr, arith, Bool-cases, Every,
  Every-map, ap, if_pos, if_neg,
}
use ida_rs_cli.Base.Dict
use ida_rs_cli.Base.Dict.{Dict}
use ida_rs_cli.Base.Dict.Laws.{NodupKeys, lookup-remove, remove-NodupKeys, length-remove-le}
use ida_rs_cli.Tasks.{TaskEntry, is_running, max_task_registry_entries}
use ida_rs_cli.Tasks.Retention.{
  pair_leb, insert_sorted, sort, terminal, remove_all, reclaim_capacity_for_admission,
}

-- An id among the victims.
abbrev pub named : String → List (ℕ × String) → Bool
named id [] = false
named id ((t, j) ∷ ps) = j == id || named id ps

insert_sorted-Every :
    (P : ℕ × String → Type 0) (p : ℕ × String) (ps : List (ℕ × String))
    → P p
    → Every P ps
    → Every P (insert_sorted p ps)
unfolding insert_sorted
insert_sorted-Every P p [] x h = (x, tt)
insert_sorted-Every P p (q ∷ ps) x h = ground (arith, insert_sorted-Every P p ps x h.1)

pub sort-Every : (P : ℕ × String → Type 0) (ps : List (ℕ × String)) → Every P ps → Every P (sort ps)
unfolding sort
sort-Every P [] h = tt
sort-Every P (p ∷ ps) h = insert_sorted-Every P p (sort ps) h.0 (sort-Every P ps h.1)

length-insert_sorted :
    (p : ℕ × String) (ps : List (ℕ × String)) → length (insert_sorted p ps) ≡ suc (length ps)
unfolding insert_sorted
length-insert_sorted p [] = refl
length-insert_sorted p (q ∷ ps) = ground (arith, length-insert_sorted p ps)

pub length-sort : (ps : List (ℕ × String)) → length (sort ps) ≡ length ps
unfolding sort
length-sort [] = refl
length-sort (p ∷ ps) = omega (arith, length-insert_sorted p (sort ps), length-sort ps)

-- The instants rise along a sorted list.
abbrev pub Rises : List (ℕ × String) → Type 0
Rises [] = Unit {0}
Rises (p ∷ ps) = Every (λ q. p.0 ≤ q.0) ps × Rises ps

Every-le :
    (s t : ℕ) (ps : List (ℕ × String)) → s ≤ t → Every (λ q. t ≤ q.0) ps → Every (λ q. s ≤ q.0) ps
Every-le s t [] h k = tt
Every-le s t (p ∷ ps) h k = (omega arith, Every-le s t ps h k.1)

insert_sorted-Rises :
    (p : ℕ × String) (ps : List (ℕ × String)) → Rises ps → Rises (insert_sorted p ps)
unfolding insert_sorted
insert_sorted-Rises p [] h = (tt, tt)
insert_sorted-Rises (s, a) ((t, b) ∷ ps) h = elim (Bool-cases (pair_leb (s, a) (t, b))) [
  | inl e ↦ rw e ((le e, Every-le s t ps (le e) h.0), h)
  | inr e ↦
      rw e
        (insert_sorted-Every (λ q. t ≤ q.0) (s, a) ps (ge e) h.0, insert_sorted-Rises (s, a) ps h.1)
]
  where
    le : pair_leb (s, a) (t, b) ≡ true → s ≤ t
    le e = ground arith

    ge : pair_leb (s, a) (t, b) ≡ false → t ≤ s
    ge e = ground arith

pub sort-Rises : (ps : List (ℕ × String)) → Rises (sort ps)
unfolding sort
sort-Rises [] = tt
sort-Rises (p ∷ ps) = insert_sorted-Rises p (sort ps) (sort-Rises ps)

insert_sorted-Every_conv :
    (P : ℕ × String → Type 0) (p : ℕ × String) (ps : List (ℕ × String))
    → Every P (insert_sorted p ps)
    → P p × Every P ps
unfolding insert_sorted
insert_sorted-Every_conv P p [] h = h
insert_sorted-Every_conv P p (q ∷ ps) h = elim (Bool-cases (pair_leb p q)) [
  | inl e ↦ (rw (e, insert_sorted) at h)
  | inr e ↦
      let k : P q × Every P (insert_sorted p ps) = rw (e, insert_sorted) at h in
      let ih = insert_sorted-Every_conv P p ps k.1 in (ih.0, (k.0, ih.1))
]

sort-Every_conv :
    (P : ℕ × String → Type 0) (ps : List (ℕ × String)) → Every P (sort ps) → Every P ps
unfolding sort
sort-Every_conv P [] h = tt
sort-Every_conv P (p ∷ ps) h =
    let k = insert_sorted-Every_conv P p (sort ps) h in (k.0, sort-Every_conv P ps k.1)

nil_of_length : (ps : List (ℕ × String)) → length ps ≡ 0 → ps ≡ []
nil_of_length [] h = refl
nil_of_length (p ∷ ps) h = absurd (omega arith)

module _ {V : Type 0} where
  pub lookup-remove_all :
      (id : String) (ps : List (ℕ × String)) (d : Dict String (TaskEntry V))
      → Dict.lookup id (remove_all ps d) ≡ (if named id ps then none else Dict.lookup id d)
  unfolding remove_all
  lookup-remove_all id [] d = refl
  lookup-remove_all id ((t, j) ∷ ps) d =
      ground (arith, lookup-remove_all id ps (Dict.remove j d), lookup-remove id j d)

  pub remove_all-NodupKeys :
      (ps : List (ℕ × String)) (d : Dict String (TaskEntry V))
      → NodupKeys d
      → NodupKeys (remove_all ps d)
  unfolding remove_all
  remove_all-NodupKeys [] d u = u
  remove_all-NodupKeys ((t, j) ∷ ps) d u =
      remove_all-NodupKeys ps (Dict.remove j d) (remove-NodupKeys j d u)

  pub length-remove_all-le :
      (ps : List (ℕ × String)) (d : Dict String (TaskEntry V)) → length (remove_all ps d) ≤ length d
  unfolding remove_all
  length-remove_all-le [] d = omega arith
  length-remove_all-le ((t, j) ∷ ps) d =
      omega (arith, length-remove_all-le ps (Dict.remove j d), length-remove-le j d)

  -- The settled entry that stands behind a pair.
  abbrev pub IsSettled : Dict String (TaskEntry V) → ℕ × String → Type 0
  IsSettled d (t, id) =
      (e : TaskEntry V) × (Dict.lookup id d ≡ some e)
      × (is_running e.state.status ≡ false)
      × (e.state.updated_at ≡ t)

  IsSettled-cons :
      (k : String) (v : TaskEntry V) (d : Dict String (TaskEntry V))
      → Dict.lookup k d ≡ none
      → (p : ℕ × String) → IsSettled d p
      → IsSettled ((k, v) ∷ d) p
  unfolding Dict.lookup
  IsSettled-cons k v d fresh (t, id) (e, found, settled, at) = (
    e,
    elim (string_eq.dec k id) [
      | yes same ↦ absurd (none-some (rw (← same) at found))
      | no differ ↦ rw (if_neg _ differ) found
    ],
    settled,
    at,
  )
    where
      none-some : Dict.lookup k d ≡ some e → ⊥
      none-some h = cc

  pub terminal-IsSettled :
      (d : Dict String (TaskEntry V)) → NodupKeys d → Every (IsSettled d) (terminal d)
  unfolding terminal Dict.lookup
  terminal-IsSettled [] u = tt
  terminal-IsSettled ((k, v) ∷ d) u =
      let rest =
        Every-map (IsSettled d) (IsSettled ((k, v) ∷ d)) (IsSettled-cons k v d u.0) (terminal d)
          (terminal-IsSettled d u.1) in
      elim (Bool-cases (is_running v.state.status)) [
        | inl e ↦ rw e rest
        | inr e ↦ rw e ((v, rw (if_pos _ refl), e, refl), rest)
      ]

  abbrev pub AllRunning : Dict String (TaskEntry V) → Type 0
  AllRunning = Dict.All (λ _ e. is_running e.state.status ≡ true)

  terminal-nil : (d : Dict String (TaskEntry V)) → terminal d ≡ [] → AllRunning d
  unfolding terminal
  terminal-nil [] h = tt
  terminal-nil ((k, v) ∷ d) h = elim (Bool-cases (is_running v.state.status)) [
    | inl e ↦ (e, terminal-nil d (ground arith))
    | inr e ↦ absurd (ground arith)
  ]

  -- What making room for one task can do to a registry within its bound.
  pub data Reclaimed (d d' : Dict String (TaskEntry V)) : Type 0 where
    room : length d < max_task_registry_entries → d' ≡ d → Reclaimed d d'
    full : length d ≡ max_task_registry_entries → AllRunning d → d' ≡ d → Reclaimed d d'
    oldest :
        (t : ℕ) (id : String)
        → length d ≡ max_task_registry_entries
        → IsSettled d (t, id)
        → Every (λ q. t ≤ q.0) (terminal d)
        → d' ≡ Dict.remove id d
        → Reclaimed d d'

  reclaim_sorted :
      (d : Dict String (TaskEntry V)) (ps : List (ℕ × String))
      → sort (terminal d) ≡ ps
      → length d ≡ max_task_registry_entries
      → NodupKeys d
      → Reclaimed d (remove_all (take 1 ps) d)
  unfolding remove_all
  reclaim_sorted d [] e many u =
      full many
        (terminal-nil d
          (nil_of_length (terminal d) (omega (arith, ap length e, length-sort (terminal d)))))
        refl
  reclaim_sorted d ((t, id) ∷ ps) e many u =
      oldest t id many (rw e at (sort-Every (IsSettled d) (terminal d) (terminal-IsSettled d u))).0
        (sort-Every_conv (λ q. t ≤ q.0) (terminal d)
          (rw e (omega arith, (rw e at (sort-Rises (terminal d))).0)))
        refl

  -- Making room in a registry of 256 tasks at most leaves one with fewer as it is. Of 256 tasks it
  -- drops one that has settled, than which no settled task was updated earlier; if all of them run,
  -- it drops none.
  pub reclaim-Reclaimed :
      (d : Dict String (TaskEntry V))
      → NodupKeys d
      → length d ≤ max_task_registry_entries
      → Reclaimed d (reclaim_capacity_for_admission d)
  unfolding reclaim_capacity_for_admission
  reclaim-Reclaimed d u h = elim (Bool-cases (ltb (length d) max_task_registry_entries)) [
    | inl e ↦ rw e (room (ground arith) refl)
    | inr e ↦
        let one : length d - 256 + 1 ≡ 1 = ground arith in
        rw (e, one) (reclaim_sorted d (sort (terminal d)) refl (ground arith) u)
  ]
