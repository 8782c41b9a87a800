-- ===== src/Handlers/Search/Laws.antt =====
-- The search in chunks against a scan of each segment as a whole.
use ida_rs_cli.Base.{
  ℕ, zero, suc, ◌+◌, ◌-◌, ◌≤◌, ◌<◌, min, false, ◌&&◌, Option, some, List, [], ◌∷◌, ◌++◌, length,
  length-take, append_assoc, append_nil, take, Every, String, ltb, leb, ◌≡◌, refl, sym, ap, ◌∙◌,
  Bool-cases, inl, inr, arith,
}
use ida_rs_cli.Handlers.{ok}
use ida_rs_cli.Handlers.Search.{
  Memory, matched, parse_pattern, handle_find_bytes, Pattern, Segment, scan_chunks, scan_segments,
}
use ida_rs_cli.Handlers.Search.Occurrences.{
  read, occurrences, all_occurrences, length-read, occurrences-add, take_within, take_full,
  take-take-append, scan-occurrences,
}

-- Every range of bytes within the segment can be read.
abbrev pub IsLoaded : (ℕ → ℕ) → (ℕ → ℕ → List ℕ) → Segment → Type 0
IsLoaded mem get_bytes seg =
    (addr n : ℕ)
    → seg.start_address ≤ addr
    → addr + n ≤ seg.start_address + seg.len
    → get_bytes addr n ≡ read mem addr n

module _ (mem : ℕ → ℕ) (pat : Pattern) (max_results : ℕ) (solid : 1 ≤ length pat) where
  joined :
      (chunk r q addr : ℕ)
      → 1 ≤ chunk
      → q ≡ min r (chunk + (length pat - 1))
      → chunk < r
      → occurrences mem pat (q + 1 - length pat) addr
          ++ occurrences mem pat (r - chunk + 1 - length pat) (addr + chunk)
        ≡ occurrences mem pat (r + 1 - length pat) addr
  joined chunk r q addr pos e more = elim (Bool-cases (leb (chunk + (length pat - 1)) r)) [
    | inl t ↦
        let a : q + 1 - length pat ≡ chunk = ground (arith, solid) in
        let b : r + 1 - length pat ≡ chunk + (r - chunk + 1 - length pat) = ground (arith, solid) in
        rw (a, b) (sym (occurrences-add mem pat chunk (r - chunk + 1 - length pat) addr))
    | inr f ↦
        let a : q ≡ r = ground arith in
        let b : r - chunk + 1 - length pat ≡ 0 = ground arith in
        rw (a, b) (append_nil (occurrences mem pat (r + 1 - length pat) addr))
  ]

  nothing :
      (n addr : ℕ) (matches : List ℕ)
      → length matches ≤ max_results
      → n ≡ 0
      → matches ≡ take max_results (matches ++ occurrences mem pat n addr)
  nothing n addr matches h e = rw (e, append_nil matches) (sym (take_within max_results matches h))

  module _ (get_bytes : ℕ → ℕ → List ℕ) (chunk : ℕ) (pos : 1 ≤ chunk) where
    next_chunk :
        (seg : Segment) (offset q : ℕ)
        → leb (seg.len - offset) chunk ≡ false
        → q ≡ min (seg.len - offset) (chunk + (length pat - 1))
        → occurrences mem pat (q + 1 - length pat) (seg.start_address + offset)
            ++ occurrences mem pat
                (seg.len - (offset + chunk) + 1 - length pat)
                (seg.start_address + (offset + chunk))
          ≡ occurrences mem pat (seg.len - offset + 1 - length pat) (seg.start_address + offset)
    next_chunk seg offset q more e =
        let a : seg.len - (offset + chunk) ≡ seg.len - offset - chunk = omega arith in
        let b : seg.start_address + (offset + chunk) ≡ seg.start_address + offset + chunk =
          omega arith in
        rw (a, b)
          (joined chunk (seg.len - offset) q (seg.start_address + offset) pos e (ground arith))

    chunks-occurrences :
        (seg : Segment) (fuel offset : ℕ) (matches : List ℕ)
        → IsLoaded mem get_bytes seg
        → length matches ≤ max_results
        → seg.len - offset ≤ fuel
        → scan_chunks pat max_results chunk get_bytes seg fuel offset matches
          ≡ take max_results (
              matches
              ++ occurrences mem pat
                  (seg.len - offset + 1 - length pat)
                  (seg.start_address + offset))
    unfolding scan_chunks
    chunks-occurrences seg zero offset matches loaded h k =
        let e : seg.len - offset + 1 - length pat ≡ 0 = omega (arith, k, solid) in
        rw (e, append_nil matches) (sym (take_within max_results matches h))
    chunks-occurrences seg (suc fuel) offset matches loaded h k =
        let r : ℕ = seg.len - offset in
        let q : ℕ = min r (chunk + (length pat - 1)) in
        let addr : ℕ = seg.start_address + offset in
        elim (Bool-cases (ltb offset seg.len && ltb (length matches) max_results)) [
          | inr f ↦
              rw (f, scan_chunks)
                (elim (Bool-cases (ltb offset seg.len)) [
                  | inl t ↦
                      let full : ltb (length matches) max_results ≡ false = rw t at f in
                      sym (take_full max_results matches _ (ground arith))
                  | inr g ↦
                      nothing (seg.len - offset + 1 - length pat) (seg.start_address + offset)
                        matches h (ground (arith, solid))
                ])
          | inl t ↦
              let here : get_bytes addr q ≡ read mem addr q =
                loaded addr q (omega arith) (ground arith) in
              elim (Bool-cases (ltb (length (read mem addr q)) (length pat))) [
                | inl short ↦
                    rw (t, scan_chunks, here, short)
                      (let l : min (seg.len - offset) (chunk + (length pat - 1)) < length pat =
                          ground (arith, length-read mem addr q) in
                        nothing (seg.len - offset + 1 - length pat) (seg.start_address + offset)
                          matches h (omega (arith, l, pos)))
                | inr fits ↦ elim (Bool-cases (leb r chunk)) [
                  | inl last ↦
                      rw (t, scan_chunks, here, fits, last)
                        (let e : min (seg.len - offset) (chunk + (length pat - 1))
                              ≡ seg.len - offset =
                            ground arith in
                          rw
                            (
                              e,
                              loaded (seg.start_address + offset) (seg.len - offset) (omega arith)
                                  (ground arith),
                            )
                            (scan-occurrences mem pat max_results solid (seg.len - offset)
                              (seg.start_address + offset) matches h))
                  | inr more ↦
                      rw (t, scan_chunks, here, fits, more)
                        (rw (here, scan-occurrences mem pat max_results solid q addr matches h)
                          (chunks-occurrences seg fuel (offset + chunk)
                              (take max_results
                                (matches ++ occurrences mem pat (q + 1 - length pat) addr))
                              loaded
                              (omega (
                                arith,
                                length-take max_results
                                    (matches ++ occurrences mem pat (q + 1 - length pat) addr),
                              ))
                              (omega (arith, k, pos))
                            ∙ take-take-append max_results
                                (matches ++ occurrences mem pat (q + 1 - length pat) addr) _
                            ∙ ap (λ l. take max_results l)
                                (append_assoc matches
                                    (occurrences mem pat (q + 1 - length pat) addr) _
                                  ∙ ap (λ l. matches ++ l) (next_chunk seg offset q more refl))))
                ]
              ]
        ]

    segment-occurrences :
        (seg : Segment) (matches : List ℕ)
        → IsLoaded mem get_bytes seg
        → length matches ≤ max_results
        → scan_chunks pat max_results chunk get_bytes seg seg.len 0 matches
          ≡ take max_results
              (matches ++ occurrences mem pat (seg.len + 1 - length pat) seg.start_address)
    segment-occurrences seg matches loaded h =
        let a : seg.len - 0 ≡ seg.len = omega arith in
        let b : seg.start_address + 0 ≡ seg.start_address = omega arith in
        chunks-occurrences seg seg.len 0 matches loaded h (omega arith) ∙ rw (a, b) refl

    whole :
        (xs ys zs : List ℕ)
        → take max_results (take max_results (xs ++ ys) ++ zs) ≡ take max_results (xs ++ (ys ++ zs))
    whole xs ys zs =
        take-take-append max_results (xs ++ ys) zs
        ∙ ap (λ l. take max_results l) (append_assoc xs ys zs)

    segments-occurrences :
        (segs : List Segment) (matches : List ℕ)
        → Every (IsLoaded mem get_bytes) segs
        → length matches ≤ max_results
        → scan_segments pat max_results chunk get_bytes segs matches
          ≡ take max_results (matches ++ all_occurrences mem pat segs)
    unfolding scan_segments
    segments-occurrences [] matches loaded h =
        rw (append_nil matches) (sym (take_within max_results matches h))
    segments-occurrences (seg ∷ segs) matches loaded h =
        let here : List ℕ = occurrences mem pat (seg.len + 1 - length pat) seg.start_address in
        let found : List ℕ = take max_results (matches ++ here) in
        let e : scan_chunks pat max_results chunk get_bytes seg seg.len 0 matches ≡ found =
          segment-occurrences seg matches loaded.0 h in
        let l : length found ≤ max_results =
          omega (arith, length-take max_results (matches ++ here)) in
        rw (e, scan_segments)
          (elim (Bool-cases (leb max_results (length found))) [
            | inl full ↦
                rw (full, e)
                  (sym (take_full max_results found (all_occurrences mem pat segs) (ground arith))
                    ∙ whole matches here (all_occurrences mem pat segs))
            | inr room ↦
                rw (room, e)
                  (segments-occurrences segs found loaded.1 l
                    ∙ whole matches here (all_occurrences mem pat segs))
          ])

-- When every range within a segment can be read, a pattern that is accepted is found at exactly the addresses
-- where it stands whole within a segment, in the order of the segments and of the addresses, the first
-- `max_results` of them: no match is lost or found twice where two chunks meet.
pub handle_find_bytes_lem :
    (db : Memory) (mem : ℕ → ℕ) (pattern : String) (p : Option ℕ) (ps : Pattern) (max_results : ℕ)
    → Every (IsLoaded mem db.get_bytes) db.segments
    → parse_pattern pattern ≡ ok (p ∷ ps)
    → handle_find_bytes (some db) pattern max_results
      ≡ ok (matched pattern (take max_results (all_occurrences mem (p ∷ ps) db.segments)))
unfolding handle_find_bytes
handle_find_bytes_lem db mem pattern p ps max_results loaded h = rw h (
    ap (λ l. ok (matched pattern l))
      (segments-occurrences mem (p ∷ ps) max_results (omega arith) db.get_bytes 1048576
        (omega arith) db.segments [] loaded (omega arith)))
