-- ===== src/Tools/Filter/Laws.antt =====
-- The set that the filter builds, against its description by the four rules.
use ida_rs_cli.Base.{
  Bool, true, false, not, ◌&&◌, ◌||◌, none, some, List, [], ◌∷◌, String, contains, if◌then◌else◌,
  ◌==◌, nat_eq, string_eq, ◌≡◌, refl, sym, ◌∙◌, inl, inr, Bool-cases,
}
use ida_rs_cli.Tools.Filter.Stages.{in_toolsets, wanted, toolsets-Stage, tools-Stage, exclude-Stage}
use ida_rs_cli.Tools.Filter.Sets.{and_true, contains-insert_all, contains-remove_all}
use ida_rs_cli.Tools.{ToolInfo, from_str, get_tool, tools_by_category}
use ida_rs_cli.Tools.Filter.{
  ToolFilterError, unknown_toolset, unknown_tool, empty_final_set, Built, ok, err, ToolFilter,
  read_only_deny_list, clean, is_empty, names, deny, base, settled, build, from_inputs, is_enabled,
}

or_nothing : (b : Bool) → (b || false) ≡ b
or_nothing true = refl
or_nothing false = refl

or_rotate : (q a b : Bool) → (q || ((a || b) || false)) ≡ ((a || b) || q)
or_rotate true true b = refl
or_rotate true false true = refl
or_rotate true false false = refl
or_rotate false a b = refl

module _ (lowercase : String → String) (registry : List ToolInfo) where
  -- Why the filter refuses its inputs: a toolset or tool of theirs is unknown, or nothing is left.
  pub data Refused (toolsets tools excludes : List String) (read_only : Bool)
      : ToolFilterError → Type 0 where
    toolset :
        (raw : String)
        → contains toolsets raw ≡ true
        → from_str lowercase raw ≡ none
        → Refused toolsets tools excludes read_only (unknown_toolset raw)
    included :
        (raw : String)
        → contains tools raw ≡ true
        → get_tool registry raw ≡ none
        → Refused toolsets tools excludes read_only (unknown_tool raw)
    excluded :
        (raw : String)
        → contains excludes raw ≡ true
        → get_tool registry raw ≡ none
        → Refused toolsets tools excludes read_only (unknown_tool raw)
    empty :
        ((x : String) → wanted lowercase registry toolsets tools excludes read_only x ≡ false)
        → Refused toolsets tools excludes read_only empty_final_set

  pub data Outcome (toolsets tools excludes : List String) (read_only : Bool)
      : Built ToolFilter → Type 0 where
    offers :
        (f : ToolFilter)
        → ((x : String)
            → is_enabled f x ≡ wanted lowercase registry toolsets tools excludes read_only x)
        → Outcome toolsets tools excludes read_only (ok f)
    refuses :
        (e : ToolFilterError)
        → Refused toolsets tools excludes read_only e
        → Outcome toolsets tools excludes read_only (err e)

  contains-base :
      (toolsets tools : List String) (x : String)
      → contains (base lowercase registry toolsets tools) x
        ≡ (if is_empty toolsets && is_empty tools then contains (names registry) x else false)
  contains-base toolsets tools x = elim (Bool-cases (is_empty toolsets && is_empty tools)) [
    | inl t ↦
        rw t (contains-insert_all (names registry) [] x ∙ or_nothing (contains (names registry) x))
    | inr f ↦ rw f refl
  ]

  contains-deny :
      (read_only : Bool) (set : List String) (x : String)
      → contains (deny lowercase registry read_only set) x
        ≡ (contains set x && not (read_only && contains read_only_deny_list x))
  contains-deny true set x = contains-remove_all read_only_deny_list set x
  contains-deny false set x = sym (and_true (contains set x))

  settled-Outcome :
      (toolsets tools excludes : List String) (read_only any_input : Bool) (set : List String)
      → ((x : String)
          → contains set x ≡ wanted lowercase registry toolsets tools excludes read_only x)
      → Outcome toolsets tools excludes read_only (settled lowercase registry any_input set)
  settled-Outcome toolsets tools excludes read_only any_input [] law =
      refuses empty_final_set (empty (λ x. sym (law x)))
  settled-Outcome toolsets tools excludes read_only any_input (s ∷ set) law = offers _ law

  combine :
      (ps qs : List String) (x : String)
      → (contains qs x
          || (in_toolsets lowercase registry ps x
              || (if is_empty ps && is_empty qs then contains (names registry) x else false)))
        ≡ (if is_empty ps && is_empty qs
            then contains (names registry) x
            else in_toolsets lowercase registry ps x || contains qs x)
  combine [] [] x = refl
  combine (p ∷ ps) qs x =
      or_rotate (contains qs x)
        (elim (from_str lowercase p) [
          | none ↦ false
          | some cat ↦ contains (names (tools_by_category registry cat)) x
        ])
        (in_toolsets lowercase registry ps x)
  combine [] (q ∷ qs) x = or_nothing (q == x || contains qs x)

  build-Outcome :
      (ps qs rs : List String) (read_only : Bool)
      → Outcome ps qs rs read_only (build lowercase registry ps qs rs read_only)
  unfolding build
  build-Outcome ps qs rs read_only =
      elim (toolsets-Stage lowercase registry ps (base lowercase registry ps qs)) [
        | inr (e, q, (r, p, m, u)) ↦ rw (q, build, p) (refuses (unknown_toolset r) (toolset r m u))
        | inl (a, q, law_a) ↦ elim (tools-Stage lowercase registry qs a) [
          | inr (e, q', (r, p, m, u)) ↦
              rw (q, build, q', p) (refuses (unknown_tool r) (included r m u))
          | inl (b, q', law_b) ↦ elim (exclude-Stage lowercase registry rs b) [
            | inr (e, q'', (r, p, m, u)) ↦
                rw (q, build, q', q'', p) (refuses (unknown_tool r) (excluded r m u))
            | inl (c, q'', law_c) ↦
                rw (q, build, q', q'')
                  (settled-Outcome ps qs rs read_only _ (deny lowercase registry read_only c) (λ x.
                    contains-deny read_only c x
                    ∙ rw (law_c x, law_b x, law_a x, contains-base ps qs x, combine ps qs x) refl))
          ]
        ]
      ]

  -- The filter that is built offers exactly the tools that the four rules want: all tools when nothing is
  -- included, else those of the named categories and the named ones, without the excluded ones, and
  -- without those on the deny list when it is read-only. It is refused only for an unknown toolset, an
  -- unknown tool among the included or excluded ones, or when the rules want no tool at all. The names are
  -- those of the cleaned inputs.
  pub from_inputs-Outcome :
      (toolsets tools excludes : List String) (read_only : Bool)
      → Outcome
          (clean toolsets)
          (clean tools)
          (clean excludes)
          read_only
          (from_inputs lowercase registry toolsets tools excludes read_only)
  unfolding from_inputs
  from_inputs-Outcome toolsets tools excludes read_only =
      build-Outcome (clean toolsets) (clean tools) (clean excludes) read_only
