-- ===== src/Handlers/Xrefs/Laws.antt =====
-- Paging through the cross references of an address.
use ida_rs_cli.Base.{
  ℕ, suc, ◌+◌, ◌-◌, ◌≤◌, min, max, true, Option, none, some, List, [], map, length, length-take,
  length-drop, take, drop, ltb, ◌≡◌, refl, subst, ap, ◌∙◌, arith, Bool-cases, inl, inr,
}
use ida_rs_cli.Base.Numbers.{word}
use ida_rs_cli.Paging.{Served, collect}
use ida_rs_cli.Paging.Windows.{Chain, take_window-Chain}
use ida_rs_cli.Paging.Walks.{Serves, next_of, collect-all, served_eq, length-map, slice-map}
use ida_rs_cli.Handlers.{Outcome, ok, err, XRef, Database}
use ida_rs_cli.Handlers.Xrefs.{
  XRefInfo, XRefListResult, XrefsRequest, Parsed, parsed, out_of_range, to_xref_info,
  collect_window, handle_xrefs_to, handle_xrefs_from, parse_xrefs_paging, parse_optional_unsigned,
  and_then, unwrap_or, windowed, answered,
}

-- What a client reads of an answer; nothing, if there is none.
abbrev pub answer : Option (Outcome XRefListResult) → Served XRefInfo
answer none = record { rows = []; next = none }
answer (some (err e)) = record { rows = []; next = none }
answer (some (ok r)) = record { rows = r.xrefs; next = r.next_offset }

windowed-next :
    (offset limit : ℕ) (xs : List XRef)
    → (windowed offset (take limit (drop offset xs), ltb (offset + limit) (length xs))).next_offset
      ≡ next_of limit offset (length (map to_xref_info xs))
windowed-next offset limit xs =
    rw
      (
        length-map to_xref_info xs,
        length-map to_xref_info (take limit (drop offset xs)),
        length-take limit (drop offset xs),
        length-drop offset xs,
      )
      (elim (Bool-cases (ltb (offset + limit) (length xs))) [
        | inl t ↦
            let u : ltb (offset + min limit (length xs - offset)) (length xs) ≡ true =
              ground arith in
            rw (t, u) refl
        | inr f ↦ elim (Bool-cases (ltb (offset + min limit (length xs - offset)) (length xs))) [
          | inl t ↦ absurd (ground arith)
          | inr g ↦ rw (f, g) refl
        ]
      ])

abbrev limit_of : Parsed (ℕ × (ℕ × Option ℕ)) → ℕ
limit_of (parsed (offset, (limit, timeout))) = limit
limit_of (out_of_range name) = 1

abbrev pub combined :
    Parsed (Option ℕ) → Parsed (Option ℕ) → Parsed (Option ℕ) → Parsed (ℕ × (ℕ × Option ℕ))
combined p q r = and_then p (λ limit. and_then q (λ offset.
    and_then r (λ timeout.
      parsed (unwrap_or offset 0, (min (max (unwrap_or limit 1000) 1) 10000, timeout)))))

combined-limit :
    (p q r : Parsed (Option ℕ))
    → (1 ≤ limit_of (combined p q r)) × (limit_of (combined p q r) ≤ 10000)
combined-limit (parsed l) (parsed o) (parsed t) = (omega arith, omega arith)
combined-limit (parsed l) (parsed o) (out_of_range name) = (omega arith, omega arith)
combined-limit (parsed l) (out_of_range name) r = (omega arith, omega arith)
combined-limit (out_of_range name) q r = (omega arith, omega arith)

-- The limit of a request that is accepted lies between 1 and 10000.
pub parse-limit :
    (req : XrefsRequest) (offset limit : ℕ) (timeout : Option ℕ)
    → parse_xrefs_paging req ≡ parsed (offset, (limit, timeout))
    → (1 ≤ limit) × (limit ≤ 10000)
unfolding parse_xrefs_paging
parse-limit req offset limit timeout e =
    subst (λ n. (1 ≤ n) × (n ≤ 10000)) (ap limit_of e)
      (combined-limit (parse_optional_unsigned word req.limit "limit")
        (parse_optional_unsigned word req.offset "offset")
        (parse_optional_unsigned word req.timeout_secs "timeout_secs"))

collect_window-Chain :
    (first : Option XRef) (offset limit : ℕ) (advance : XRef → Option XRef) (xs : List XRef)
    → Chain advance first xs
    → collect_window first offset limit advance
      ≡ some (windowed offset (take limit (drop offset xs), ltb (offset + limit) (length xs)))
unfolding collect_window
collect_window-Chain first offset limit advance xs chain =
    rw (take_window-Chain first offset limit advance xs chain, collect_window) refl

module _ (db : Database) (addr limit : ℕ) (xs : List XRef) where
  to-Serves :
      Chain db.next_to (db.first_xref_to addr) xs
      → Serves
          (map to_xref_info xs)
          limit
          (λ offset. answer (handle_xrefs_to (some db) addr offset limit))
  unfolding handle_xrefs_to
  to-Serves chain offset =
      ap (λ r. answer (answered r))
        (collect_window-Chain (db.first_xref_to addr) offset limit (λ x. db.next_to x) xs chain)
      ∙ (served_eq (slice-map to_xref_info offset limit xs) (windowed-next offset limit xs))

  from-Serves :
      Chain db.next_from (db.first_xref_from addr) xs
      → Serves
          (map to_xref_info xs)
          limit
          (λ offset. answer (handle_xrefs_from (some db) addr offset limit))
  unfolding handle_xrefs_from
  from-Serves chain offset =
      ap (λ r. answer (answered r))
        (collect_window-Chain (db.first_xref_from addr) offset limit (λ x. db.next_from x) xs chain)
      ∙ (served_eq (slice-map to_xref_info offset limit xs) (windowed-next offset limit xs))

abbrev pub ReadsAll : (ℕ → Option (Outcome XRefListResult)) → List XRef → Type 0
ReadsAll handler xs =
    collect (λ offset. answer (handler offset)) (suc (length xs)) 0 ≡ some (map to_xref_info xs)

-- Whatever limit a request asks for, once it is accepted a client that starts at offset 0 and follows
-- `next_offset` reads every cross reference to (from) an address once, in the order of the chain, and
-- comes to an end, within one page more than there are links. The chain is one that ends.
pub xrefs-ReadsAll :
    (db : Database) (addr limit offset : ℕ) (timeout : Option ℕ) (req : XrefsRequest)
    (xs ys : List XRef)
    → parse_xrefs_paging req ≡ parsed (offset, (limit, timeout))
    → Chain db.next_to (db.first_xref_to addr) xs
    → Chain db.next_from (db.first_xref_from addr) ys
    → ReadsAll (λ offset. handle_xrefs_to (some db) addr offset limit) xs
      × ReadsAll (λ offset. handle_xrefs_from (some db) addr offset limit) ys
xrefs-ReadsAll db addr limit offset timeout req xs ys e to from =
    let pos : 1 ≤ limit = (parse-limit req offset limit timeout e).0 in
    (
      collect-all (map to_xref_info xs) limit (λ o. answer (handle_xrefs_to (some db) addr o limit))
          (to-Serves db addr limit xs to) pos (suc (length xs)) 0 (omega arith)
          (rw (length-map to_xref_info xs) (omega arith)),
      collect-all (map to_xref_info ys) limit
          (λ o. answer (handle_xrefs_from (some db) addr o limit))
          (from-Serves db addr limit ys from) pos (suc (length ys)) 0 (omega arith)
          (rw (length-map to_xref_info ys) (omega arith)),
    )
