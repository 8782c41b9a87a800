-- ===== src/Tasks/Retention.antt =====
-- src/server/task.rs: which entries go, by age on every sweep and by rank when a task is admitted.
pub mod Laws
use Prim.Native.Nat.{Ordering}
use Prim.Native.String.{compare}
use ida_rs_cli.Base.{
  ℕ, ◌+◌, ◌-◌, Bool, true, false, ◌&&◌, ◌||◌, String, List, [], ◌∷◌, if◌then◌else◌, ltb, leb,
  string_eq, length, take,
}
use ida_rs_cli.Base.Dict
use ida_rs_cli.Base.Dict.{Dict}
use ida_rs_cli.Tasks.{TaskEntry, is_running, task_retention_ttl_ms, max_task_registry_entries}

-- `now.saturating_duration_since(entry.state.updated_at) < retention`, for entries that settled.
abbrev pub is_kept : {V : Type 0} → ℕ → TaskEntry V → Bool
is_kept now e = is_running e.state.status || ltb (now - e.state.updated_at) task_retention_ttl_ms

-- `sort_unstable` on pairs of an instant and an id, which are distinct: insertion by `Ord`.
abbrev pub text_leb : String → String → Bool
text_leb a b = elim (compare a b) [ Ordering.gt ↦ false | _ ↦ true ]

abbrev pub pair_leb : ℕ × String → ℕ × String → Bool
pair_leb (s, a) (t, b) = ltb s t || (leb s t && text_leb a b)

unfoldable pub insert_sorted : ℕ × String → List (ℕ × String) → List (ℕ × String)
insert_sorted p [] = p ∷ []
insert_sorted p (q ∷ ps) = if pair_leb p q then p ∷ q ∷ ps else q ∷ insert_sorted p ps

unfoldable pub sort : List (ℕ × String) → List (ℕ × String)
unfolding insert_sorted
sort [] = []
sort (p ∷ ps) = insert_sorted p (sort ps)

module _ {V : Type 0} where
  unfoldable pub prune_terminal_tasks : ℕ → Dict String (TaskEntry V) → Dict String (TaskEntry V)
  prune_terminal_tasks now = Dict.retain (λ _ e. is_kept now e)

  unfoldable pub terminal : Dict String (TaskEntry V) → List (ℕ × String)
  terminal [] = []
  terminal ((id, e) ∷ d) =
      let rest = terminal d in
      if is_running e.state.status then rest else (e.state.updated_at, id) ∷ rest

  unfoldable pub remove_all :
      List (ℕ × String) → Dict String (TaskEntry V) → Dict String (TaskEntry V)
  remove_all [] d = d
  remove_all ((t, id) ∷ ps) d = remove_all ps (Dict.remove id d)

  unfoldable pub reclaim_capacity_for_admission :
      Dict String (TaskEntry V) → Dict String (TaskEntry V)
  reclaim_capacity_for_admission d =
      if ltb (length d) max_task_registry_entries
      then d
      else let excess = length d - max_task_registry_entries + 1 in
        remove_all (take excess (sort (terminal d))) d
