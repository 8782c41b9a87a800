-- ===== src/Handlers/Search.antt =====
-- src/ida/handlers/search.rs: the search for a byte pattern, segment by segment in overlapping
-- chunks, and parse_pattern of src/ida/handlers/mod.rs.
pub mod Occurrences
pub mod Laws
use ida_rs_cli.Base.{
  ℕ, zero, suc, ◌+◌, ◌-◌, ◌*◌, ◌/◌, ◌%◌, min, Bool, true, false, ◌&&◌, ◌||◌, Option, none, some,
  List, [], ◌∷◌, ◌++◌, map, String, length, ltb, leb, if◌then◌else◌, ◌==◌, nat_eq,
}
use ida_rs_cli.Base.Trim.{trim, is_space, is_blank}
use ida_rs_cli.Base.Text.{codes}
use ida_rs_cli.Handlers.{Outcome, ok, err, no_database_open, ida_error, hex}

-- A byte, or a wildcard.
abbrev pub Pattern : Type 0
Pattern = List (Option ℕ)

-- The bytes of a character in UTF-8.
abbrev pub utf8 : ℕ → List ℕ
utf8 c =
    if ltb c 128
    then c ∷ []
    else if ltb c 2048
    then (192 + c / 64) ∷ (128 + c % 64) ∷ []
    else if ltb c 65536
    then (224 + c / 4096) ∷ (128 + c / 64 % 64) ∷ (128 + c % 64) ∷ []
    else (240 + c / 262144) ∷ (128 + c / 4096 % 64) ∷ (128 + c / 64 % 64) ∷ (128 + c % 64) ∷ []

abbrev pub encode : List ℕ → List ℕ
encode [] = []
encode (c ∷ cs) = utf8 c ++ encode cs

abbrev end_word : List ℕ → List (List ℕ) → List (List ℕ)
end_word [] words = words
end_word (c ∷ cs) words = (c ∷ cs) ∷ words

-- `split_whitespace`: `word` is the one being read.
abbrev pub split_whitespace : List ℕ → List ℕ → List (List ℕ)
split_whitespace word [] = end_word word []
split_whitespace word (c ∷ cs) =
    let next = split_whitespace [] cs in
    let longer = split_whitespace (word ++ c ∷ []) cs in
    if is_space c then end_word word next else longer

-- `chunks(2)`.
abbrev pub pairs : List ℕ → List (List ℕ)
pairs [] = []
pairs (a ∷ []) = (a ∷ []) ∷ []
pairs (a ∷ b ∷ bs) = (a ∷ b ∷ []) ∷ pairs bs

abbrev pub has_space : List ℕ → Bool
has_space [] = false
has_space (c ∷ cs) = c == 32 || has_space cs

abbrev nibble : ℕ → Option ℕ
nibble c =
    if leb 48 c && leb c 57
    then some (c - 48)
    else if leb 97 c && leb c 102
    then some (c - 87)
    else if leb 65 c && leb c 70
    then some (c - 55)
    else none

-- The digits of a `u8` in base 16, after `n`.
abbrev pub byte_from : ℕ → List ℕ → Option ℕ
byte_from n [] = some n
byte_from n (c ∷ cs) = elim (nibble c) [
  | none ↦ none
  | some d ↦ elim (ltb (n * 16 + d) 256) [ true ↦ byte_from (n * 16 + d) cs | false ↦ none ]
]

-- `u8::from_str_radix(_, 16)`, which takes one plus sign before the digits.
abbrev pub byte_of : List ℕ → Option ℕ
byte_of [] = none
byte_of (c ∷ []) = elim (c == 43) [ true ↦ none | false ↦ byte_from 0 (c ∷ []) ]
byte_of (c ∷ d ∷ ds) = elim (c == 43) [
  | true ↦ byte_from 0 (d ∷ ds)
  | false ↦ byte_from 0 (c ∷ d ∷ ds)
]

-- `trim_start_matches("0x")`.
abbrev pub without_prefix : List ℕ → List ℕ
without_prefix [] = []
without_prefix (a ∷ []) = a ∷ []
without_prefix (a ∷ b ∷ bs) =
    let rest = without_prefix bs in if a == 48 && b == 120 then rest else a ∷ b ∷ bs

abbrev is_wildcard : List ℕ → Bool
is_wildcard [] = false
is_wildcard (a ∷ []) = a == 63
is_wildcard (a ∷ b ∷ []) = a == 63 && b == 63
is_wildcard (a ∷ b ∷ c ∷ cs) = false

abbrev and_byte : Option ℕ → Outcome Pattern → Outcome Pattern
and_byte b (ok p) = ok (b ∷ p)
and_byte b (err e) = err e

-- The texts of the errors leave out the token. The first token that is refused ends the loop.
abbrev pub parse_tokens : List (List ℕ) → Outcome Pattern
parse_tokens [] = ok []
parse_tokens (t ∷ ts) = elim (is_wildcard t) [
  | true ↦ and_byte none (parse_tokens ts)
  | false ↦ elim (byte_of (without_prefix t)) [
    | none ↦ err (ida_error "invalid byte")
    | some b ↦ and_byte (some b) (parse_tokens ts)
  ]
]

unfoldable pub parse_pattern : String → Outcome Pattern
parse_pattern pattern =
    let trimmed = codes (trim pattern) in
    if is_blank (trim pattern)
    then err (ida_error "empty pattern")
    else if has_space trimmed
    then parse_tokens (map (λ w. encode w) (split_whitespace [] trimmed))
    else if length (encode trimmed) % 2 == 0
    then parse_tokens (pairs (encode trimmed))
    else err (ida_error "invalid hex pattern length")

pub record Segment : Type 0 where
  pub start_address : ℕ
  pub len : ℕ

pub record Memory : Type 0 where
  pub segments : List Segment
  pub get_bytes : ℕ → ℕ → List ℕ

abbrev byte_fits : Option ℕ → ℕ → Bool
byte_fits none b = true
byte_fits (some p) b = b == p

-- Whether the bytes start with the pattern.
abbrev pub starts : Pattern → List ℕ → Bool
starts [] bytes = true
starts (p ∷ ps) [] = false
starts (p ∷ ps) (b ∷ bs) = byte_fits p b && starts ps bs

module _ (pat : Pattern) (max_results : ℕ) where
  -- The loop over the positions in a chunk, as long as the pattern fits behind them.
  unfoldable pub scan : ℕ → List ℕ → List ℕ → List ℕ
  scan addr [] matches = matches
  scan addr (b ∷ bs) matches = elim (ltb (length (b ∷ bs)) (length pat)) [
    | true ↦ matches
    | false ↦ elim (leb max_results (length matches)) [
      | true ↦ matches
      | false ↦ scan (suc addr) bs (if starts pat (b ∷ bs) then matches ++ addr ∷ [] else matches)
    ]
  ]

  -- The loop over the chunks of a segment. Each pass goes `chunk_size` further, so that fewer passes than
  -- the segment has bytes are made.
  unfoldable pub scan_chunks : ℕ → (ℕ → ℕ → List ℕ) → Segment → ℕ → ℕ → List ℕ → List ℕ
  scan_chunks chunk_size get_bytes seg zero offset matches = matches
  scan_chunks chunk_size get_bytes seg (suc fuel) offset matches =
      elim (ltb offset seg.len && ltb (length matches) max_results) [
        | false ↦ matches
        | true ↦
            let remaining = seg.len - offset in
            let read_len = min remaining (chunk_size + (length pat - 1)) in
            let bytes = get_bytes (seg.start_address + offset) read_len in
            elim (ltb (length bytes) (length pat)) [
              | true ↦ matches
              | false ↦ elim (leb remaining chunk_size) [
                | true ↦ scan (seg.start_address + offset) bytes matches
                | false ↦
                    scan_chunks chunk_size get_bytes seg fuel (offset + chunk_size)
                      (scan (seg.start_address + offset) bytes matches)
              ]
            ]
      ]

  unfoldable pub scan_segments : ℕ → (ℕ → ℕ → List ℕ) → List Segment → List ℕ → List ℕ
  scan_segments chunk_size get_bytes [] matches = matches
  scan_segments chunk_size get_bytes (seg ∷ segs) matches =
      let found = scan_chunks chunk_size get_bytes seg seg.len 0 matches in
      elim (leb max_results (length found)) [
        | true ↦ found
        | false ↦ scan_segments chunk_size get_bytes segs found
      ]

pub record Matches : Type 0 where
  pub pattern : String
  pub matches : List String
  pub count : ℕ

abbrev pub matched : String → List ℕ → Matches
matched pattern addresses = record {
  pattern = pattern;
  matches = map (λ a. hex a) addresses;
  count = length addresses;
}

abbrev pub search_for : Memory → String → ℕ → Outcome Pattern → Outcome Matches
search_for db pattern max_results (err e) = err e
search_for db pattern max_results (ok []) = err (ida_error "empty pattern")
search_for db pattern max_results (ok (p ∷ ps)) =
    ok (matched pattern (scan_segments (p ∷ ps) max_results 1048576 db.get_bytes db.segments []))

unfoldable pub handle_find_bytes : Option Memory → String → ℕ → Outcome Matches
handle_find_bytes none pattern max_results = err no_database_open
handle_find_bytes (some db) pattern max_results =
    search_for db pattern max_results (parse_pattern pattern)
