-- ===== src/Handlers/Listings/Laws.antt =====
-- What the listings hold, and that a client can read them whole.
use ida_rs_cli.Base.{
  ℕ, zero, suc, ◌-◌, ◌≤◌, ◌<◌, min, max, Bool, not, ◌&&◌, Option, none, some, List, [], map, String,
  length, length-select-le, take, drop, select, ◌≡◌, sym, ap, ◌∙◌, Option-cases, inl, inr, arith,
}
use mathlib.Core.Option as Option
use ida_rs_cli.Base.Numbers.{word}
use ida_rs_cli.Paging.{Served, page, collect}
use ida_rs_cli.Paging.Laws.{page-slice, page_eq}
use ida_rs_cli.Paging.Walks.{collect-page, length-map, slice-map}
use ida_rs_cli.Handlers.{Outcome, ok, err, Database, function_name}
use ida_rs_cli.Handlers.Listings.{
  Listing, listing, function_info, string_info, string_xref_info, global_info, ordinals, known,
  keeps, matched, handle_list_functions, handle_strings, handle_analyze_strings, handle_find_string,
  handle_xrefs_to_string, handle_list_globals, handle_local_types, handle_structs,
}

-- One page of the rows `all`: `limit` at most, from `offset` on, and how many there are.
abbrev pub slice_of : {B : Type 0} → List B → ℕ → ℕ → Outcome (Listing B)
slice_of all offset limit =
    ok (listing offset record { items = take limit (drop offset all); total = length all })

-- What a client reads of an answer.
abbrev pub answer : {B : Type 0} → Outcome (Listing B) → Served B
answer (ok l) = record { rows = l.items; next = l.next_offset }
answer (err e) = record { rows = []; next = none }

-- Reading page after page gives the rows `all`, within one page more than there are rows.
abbrev pub ReadsAll : {B : Type 0} → (ℕ → Outcome (Listing B)) → List B → Type 0
ReadsAll handler all = collect (λ offset. answer (handler offset)) (suc (length all)) 0 ≡ some all

-- No list of the database is as long as a `usize` can count.
pub record Fits (db : Database) : Type 0 where
  pub functions : length db.functions < word
  pub strings : length db.strings < word
  pub names : length db.names < word
  pub ordinals : db.udt_ordinal_limit < word

page-slice_of :
    {A B : Type 0}
    → (keep : A → Bool) (row : A → B) (offset limit : ℕ) (xs : List A)
    → ok (listing offset (page keep row offset limit xs))
      ≡ slice_of (map row (select keep xs)) offset limit
page-slice_of keep row offset limit xs =
    ap (λ p. ok (listing offset p))
      (page-slice keep row offset limit xs
        ∙ page_eq (slice-map row offset limit (select keep xs))
            (sym (length-map row (select keep xs))))

page-ReadsAll :
    {A B : Type 0}
    → (keep : A → Bool) (row : A → B) (limit : ℕ) (xs : List A) → 1 ≤ limit
    → length xs < word
    → ReadsAll
        (λ offset. ok (listing offset (page keep row offset limit xs)))
        (map row (select keep xs))
page-ReadsAll keep row limit xs pos fits =
    rw (length-map row (select keep xs))
      (collect-page keep row limit xs pos (omega (arith, fits, length-select-le keep xs)))

length-known :
    {A : Type 0}
    → (info : ℕ → Option A) (first count : ℕ) → length (known info (ordinals first count)) ≤ count
length-known info first zero = omega arith
length-known info first (suc count) = elim (Option-cases (info first)) [
  | inl n ↦ rw n (omega (arith, length-known info (suc first) count))
  | inr (a, e) ↦ rw e (omega (arith, length-known info (suc first) count))
]

known_fits :
    {A : Type 0}
    → (info : ℕ → Option A) (n : ℕ) → n < word
    → length (known info (ordinals 1 (n - 1))) < word
known_fits info n fits = omega (arith, length-known info 1 (n - 1), fits)

module _ (lowercase : String → String) (db : Database) (filter : Option String) (query : String)
    (exact fold : Bool) (limit max_xrefs : ℕ) where
  abbrev pub Slices : ℕ → Type 0
  Slices offset =
      (handle_list_functions lowercase (some db) offset limit filter
        ≡ slice_of
            (map function_info (
              select (λ f. keeps lowercase (Option.map lowercase filter) (function_name f))
                db.functions))
            offset limit)
      × (handle_strings lowercase (some db) offset limit filter
          ≡ slice_of
              (map string_info
                (select (λ s. keeps lowercase (Option.map lowercase filter) s.1) db.strings))
              offset limit)
      × (handle_analyze_strings lowercase (some db) filter offset limit
          ≡ slice_of
              (map (string_xref_info db 64)
                (select (λ s. keeps lowercase (Option.map lowercase filter) s.1) db.strings))
              offset limit)
      × (handle_find_string lowercase (some db) query exact fold offset limit
          ≡ slice_of
              (map string_info (select (λ s. matched lowercase exact fold query s.1) db.strings))
              offset limit)
      × (handle_xrefs_to_string lowercase (some db) query exact fold offset limit max_xrefs
          ≡ slice_of
              (map (string_xref_info db (min (max max_xrefs 1) 1024))
                (select (λ s. matched lowercase exact fold query s.1) db.strings))
              offset limit)
      × (handle_list_globals lowercase (some db) filter offset limit
          ≡ slice_of
              (map global_info (
                select
                  (λ n.
                    keeps lowercase (Option.map lowercase filter) n.name
                    && not (db.in_function n.address))
                  db.names))
              offset limit)
      × (handle_local_types lowercase (some db) offset limit filter
          ≡ slice_of
              (map (λ i. i)
                (select (λ i. keeps lowercase (Option.map lowercase filter) i.name)
                  (known db.local_type_info (ordinals 1 (db.udt_ordinal_limit - 1)))))
              offset limit)
      × (handle_structs lowercase (some db) offset limit filter
          ≡ slice_of
              (map (λ i. i)
                (select (λ i. keeps lowercase (Option.map lowercase filter) i.name)
                  (known db.udt_info (ordinals 1 (db.udt_ordinal_limit - 1)))))
              offset limit)

  abbrev pub AllRead : Type 0
  AllRead =
      ReadsAll (λ offset. handle_list_functions lowercase (some db) offset limit filter)
        (map function_info (
          select (λ f. keeps lowercase (Option.map lowercase filter) (function_name f))
            db.functions))
      × ReadsAll (λ offset. handle_strings lowercase (some db) offset limit filter)
          (map string_info
            (select (λ s. keeps lowercase (Option.map lowercase filter) s.1) db.strings))
      × ReadsAll (λ offset. handle_analyze_strings lowercase (some db) filter offset limit)
          (map (string_xref_info db 64)
            (select (λ s. keeps lowercase (Option.map lowercase filter) s.1) db.strings))
      × ReadsAll (λ offset. handle_find_string lowercase (some db) query exact fold offset limit)
          (map string_info (select (λ s. matched lowercase exact fold query s.1) db.strings))
      × ReadsAll
          (λ offset.
            handle_xrefs_to_string lowercase (some db) query exact fold offset limit max_xrefs)
          (map (string_xref_info db (min (max max_xrefs 1) 1024))
            (select (λ s. matched lowercase exact fold query s.1) db.strings))
      × ReadsAll (λ offset. handle_list_globals lowercase (some db) filter offset limit)
          (map global_info (
            select
              (λ n.
                keeps lowercase (Option.map lowercase filter) n.name
                && not (db.in_function n.address))
              db.names))
      × ReadsAll (λ offset. handle_local_types lowercase (some db) offset limit filter)
          (map (λ i. i)
            (select (λ i. keeps lowercase (Option.map lowercase filter) i.name)
              (known db.local_type_info (ordinals 1 (db.udt_ordinal_limit - 1)))))
      × ReadsAll (λ offset. handle_structs lowercase (some db) offset limit filter)
          (map (λ i. i)
            (select (λ i. keeps lowercase (Option.map lowercase filter) i.name)
              (known db.udt_info (ordinals 1 (db.udt_ordinal_limit - 1)))))

  -- Each listing is a slice of all the rows that its filter keeps, in the order of the database, and
  -- its total counts them all.
  pub listings-Slices : (offset : ℕ) → Slices offset
  unfolding handle_list_functions handle_strings handle_analyze_strings handle_find_string
      handle_xrefs_to_string handle_list_globals handle_local_types handle_structs
  listings-Slices offset = (
    page-slice_of (λ f. keeps lowercase (Option.map lowercase filter) (function_name f))
        function_info offset limit db.functions,
    page-slice_of (λ s. keeps lowercase (Option.map lowercase filter) s.1) string_info offset limit
        db.strings,
    page-slice_of (λ s. keeps lowercase (Option.map lowercase filter) s.1) (string_xref_info db 64)
        offset limit db.strings,
    page-slice_of (λ s. matched lowercase exact fold query s.1) string_info offset limit db.strings,
    page-slice_of (λ s. matched lowercase exact fold query s.1)
        (string_xref_info db (min (max max_xrefs 1) 1024)) offset limit db.strings,
    page-slice_of
        (λ n.
          keeps lowercase (Option.map lowercase filter) n.name && not (db.in_function n.address))
        global_info offset limit db.names,
    page-slice_of (λ i. keeps lowercase (Option.map lowercase filter) i.name) (λ i. i) offset limit
        (known db.local_type_info (ordinals 1 (db.udt_ordinal_limit - 1))),
    page-slice_of (λ i. keeps lowercase (Option.map lowercase filter) i.name) (λ i. i) offset limit
        (known db.udt_info (ordinals 1 (db.udt_ordinal_limit - 1))),
  )

  -- A client that asks for one row or more at a time, and goes on at the `next_offset` of each answer,
  -- reads every row that the filter keeps, once and in order, and comes to an end: it needs one page
  -- more than there are rows at most. This is so for each of the eight listings.
  pub listings-ReadsAll : 1 ≤ limit → Fits db → AllRead
  unfolding handle_list_functions handle_strings handle_analyze_strings handle_find_string
      handle_xrefs_to_string handle_list_globals handle_local_types handle_structs
  listings-ReadsAll pos fits = (
    page-ReadsAll (λ f. keeps lowercase (Option.map lowercase filter) (function_name f))
        function_info limit db.functions pos fits.functions,
    page-ReadsAll (λ s. keeps lowercase (Option.map lowercase filter) s.1) string_info limit
        db.strings pos fits.strings,
    page-ReadsAll (λ s. keeps lowercase (Option.map lowercase filter) s.1) (string_xref_info db 64)
        limit db.strings pos fits.strings,
    page-ReadsAll (λ s. matched lowercase exact fold query s.1) string_info limit db.strings pos
        fits.strings,
    page-ReadsAll (λ s. matched lowercase exact fold query s.1)
        (string_xref_info db (min (max max_xrefs 1) 1024)) limit db.strings pos fits.strings,
    page-ReadsAll
        (λ n.
          keeps lowercase (Option.map lowercase filter) n.name && not (db.in_function n.address))
        global_info limit db.names pos fits.names,
    page-ReadsAll (λ i. keeps lowercase (Option.map lowercase filter) i.name) (λ i. i) limit
        (known db.local_type_info (ordinals 1 (db.udt_ordinal_limit - 1))) pos
        (known_fits db.local_type_info db.udt_ordinal_limit fits.ordinals),
    page-ReadsAll (λ i. keeps lowercase (Option.map lowercase filter) i.name) (λ i. i) limit
        (known db.udt_info (ordinals 1 (db.udt_ordinal_limit - 1))) pos
        (known_fits db.udt_info db.udt_ordinal_limit fits.ordinals),
  )
