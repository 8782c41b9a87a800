-- ===== src/Tools/Filter/Stages.antt =====
-- The stages of the filter: the set that each leaves, or why it refuses.
use ida_rs_cli.Base.{
  Bool, true, false, not, ◌&&◌, ◌||◌, none, some, List, [], ◌∷◌, String, contains, if◌then◌else◌,
  ◌==◌, nat_eq, string_eq, ◌≡◌, refl, sym, ap, ◌∙◌, inl, inr, ◌⊎◌, Bool-cases, Option-cases, if_pos,
}
use ida_rs_cli.Tools.Filter.Sets.{
  eq_true, contains-insert, contains-remove, or_assoc, or_swap, and_not_or, and_true,
  contains-insert_all,
}
use ida_rs_cli.Tools.{ToolInfo, from_str, get_tool, tools_by_category}
use ida_rs_cli.Tools.Filter.{
  ToolFilterError, unknown_toolset, unknown_tool, Built, ok, err, read_only_deny_list, insert,
  remove, insert_all, is_empty, names, add_toolsets, add_tools, exclude,
}

module _ (lowercase : String → String) (registry : List ToolInfo) where
  -- A tool is in one of the categories that are named.
  abbrev pub in_toolsets : List String → String → Bool
  in_toolsets [] x = false
  in_toolsets (raw ∷ toolsets) x =
      elim (from_str lowercase raw) [
        | none ↦ false
        | some cat ↦ contains (names (tools_by_category registry cat)) x
      ]
      || in_toolsets toolsets x

  -- What the four rules say of a tool.
  abbrev pub wanted : List String → List String → List String → Bool → String → Bool
  wanted toolsets tools excludes read_only x =
      ((if is_empty toolsets && is_empty tools
          then contains (names registry) x
          else in_toolsets toolsets x || contains tools x)
        && not (contains excludes x))
      && not (read_only && contains read_only_deny_list x)

  get_tool-name :
      (r : List ToolInfo) (raw : String) (t : ToolInfo) → get_tool r raw ≡ some t → t.name ≡ raw
  unfolding get_tool
  get_tool-name [] raw t h = absurd (cc)
  get_tool-name (u ∷ r) raw t h = elim (Bool-cases (u.name == raw)) [
    | inl e ↦ some_name (rw e at h) ∙ eq_true u.name raw e
    | inr f ↦ get_tool-name r raw t (rw f at h)
  ]
    where
      some_name : some u ≡ some t → t.name ≡ u.name
      some_name q = let e : u ≡ t = cc in ap (λ v. v.name) (sym e)

  -- One stage: it ends with a set, described by `law`, or with an error.
  abbrev pub Stage : Built (List String) → (String → Bool) → (ToolFilterError → Type 0) → Type 0
  Stage result law refusal =
      ((set : List String) × (result ≡ ok set) × ((x : String) → contains set x ≡ law x))
      ⊎ ((e : ToolFilterError) × (result ≡ err e) × refusal e)

  abbrev pub ToolsetRefused : List String → ToolFilterError → Type 0
  ToolsetRefused toolsets e =
      (raw : String) × (e ≡ unknown_toolset raw)
      × (contains toolsets raw ≡ true)
      × (from_str lowercase raw ≡ none)

  abbrev pub ToolRefused : List String → ToolFilterError → Type 0
  ToolRefused tools e =
      (raw : String) × (e ≡ unknown_tool raw)
      × (contains tools raw ≡ true)
      × (get_tool registry raw ≡ none)

  here : (raw : String) (l : List String) → contains (raw ∷ l) raw ≡ true
  here raw l = rw (if_pos (string_eq.dec raw raw) refl true false) refl

  there : (a : Bool) {b : Bool} → b ≡ true → (a || b) ≡ true
  there true h = refl
  there false h = h

  pub toolsets-Stage :
      (toolsets enabled : List String)
      → Stage
          (add_toolsets lowercase registry toolsets enabled)
          (λ x. in_toolsets toolsets x || contains enabled x)
          (ToolsetRefused toolsets)
  unfolding add_toolsets
  toolsets-Stage [] enabled = inl (enabled, refl, λ x. refl)
  toolsets-Stage (raw ∷ toolsets) enabled = elim (Option-cases (from_str lowercase raw)) [
    | inl n ↦
        rw (n, add_toolsets) (inr (unknown_toolset raw, refl, (raw, refl, here raw toolsets, n)))
    | inr (cat, c) ↦
        let ns = names (tools_by_category registry cat) in
        rw (c, add_toolsets)
          (elim (toolsets-Stage toolsets (insert_all ns enabled)) [
            | inl (set, e, law) ↦ inl (
              set,
              e,
              λ x.
                  law x
                  ∙ ap (λ b. in_toolsets toolsets x || b) (contains-insert_all ns enabled x)
                  ∙ or_swap (in_toolsets toolsets x) (contains ns x) (contains enabled x)
                  ∙ or_assoc (contains ns x) (in_toolsets toolsets x) (contains enabled x),
            )
            | inr (e, q, (r, p, m, u)) ↦ inr (e, q, (r, p, there (raw == r) m, u))
          ])
  ]

  pub tools-Stage :
      (tools enabled : List String)
      → Stage
          (add_tools lowercase registry tools enabled)
          (λ x. contains tools x || contains enabled x)
          (ToolRefused tools)
  unfolding add_tools
  tools-Stage [] enabled = inl (enabled, refl, λ x. refl)
  tools-Stage (raw ∷ tools) enabled = elim (Option-cases (get_tool registry raw)) [
    | inl n ↦ rw (n, add_tools) (inr (unknown_tool raw, refl, (raw, refl, here raw tools, n)))
    | inr (t, c) ↦
        rw (c, add_tools, get_tool-name registry raw t c)
          (elim (tools-Stage tools (insert raw enabled)) [
            | inl (set, e, law) ↦ inl (
              set,
              e,
              λ x.
                  law x
                  ∙ ap (λ b. contains tools x || b) (contains-insert raw enabled x)
                  ∙ or_swap (contains tools x) (raw == x) (contains enabled x)
                  ∙ or_assoc (raw == x) (contains tools x) (contains enabled x),
            )
            | inr (e, q, (r, p, m, u)) ↦ inr (e, q, (r, p, there (raw == r) m, u))
          ])
  ]

  pub exclude-Stage :
      (excludes enabled : List String)
      → Stage
          (exclude lowercase registry excludes enabled)
          (λ x. contains enabled x && not (contains excludes x))
          (ToolRefused excludes)
  unfolding exclude
  exclude-Stage [] enabled = inl (enabled, refl, λ x. sym (and_true (contains enabled x)))
  exclude-Stage (raw ∷ excludes) enabled = elim (Option-cases (get_tool registry raw)) [
    | inl n ↦ rw (n, exclude) (inr (unknown_tool raw, refl, (raw, refl, here raw excludes, n)))
    | inr (t, c) ↦
        rw (c, exclude, get_tool-name registry raw t c)
          (elim (exclude-Stage excludes (remove raw enabled)) [
            | inl (set, e, law) ↦ inl (
              set,
              e,
              λ x.
                  law x
                  ∙ ap (λ b. b && not (contains excludes x)) (contains-remove raw enabled x)
                  ∙ and_not_or (contains enabled x) (raw == x) (contains excludes x),
            )
            | inr (e, q, (r, p, m, u)) ↦ inr (e, q, (r, p, there (raw == r) m, u))
          ])
  ]
