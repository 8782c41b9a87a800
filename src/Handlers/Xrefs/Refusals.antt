-- ===== src/Handlers/Xrefs/Refusals.antt =====
-- Which paging requests are refused.
use ida_rs_cli.Base.{
  ℕ, ◌^◌, ◌<◌, Bool, true, false, Option, none, some, String, ltb, if◌then◌else◌, ◌≡◌, refl, arith,
}
use ida_rs_cli.Base.Numbers.{word}
use ida_rs_cli.Handlers.Xrefs.{
  XrefsRequest, Parsed, parsed, out_of_range, ℤ, pos, negsuc, parse_optional_unsigned,
  parse_xrefs_paging,
}
use ida_rs_cli.Handlers.Xrefs.Laws.{combined}

abbrev pub refusal : {A : Type 0} → Parsed A → Option String
refusal (parsed a) = none
refusal (out_of_range name) = some name

abbrev is_negative : Option ℤ → Bool
is_negative none = false
is_negative (some (pos n)) = false
is_negative (some (negsuc n)) = true

-- The first field that is negative, by its name.
abbrev pub first_negative : XrefsRequest → Option String
first_negative req =
    if is_negative req.limit
    then some "limit"
    else if is_negative req.offset
    then some "offset"
    else if is_negative req.timeout_secs
    then some "timeout_secs"
    else none

-- An `i64` is below 2 ^ 63.
abbrev pub IsI64 : Option ℤ → Type 0
IsI64 none = Unit
IsI64 (some (pos n)) = n < 2 ^ 63
IsI64 (some (negsuc n)) = n < 2 ^ 63

parse-cases :
    (v : Option ℤ) (name : String)
    → IsI64 v
    → (n : Option ℕ) × (parse_optional_unsigned word v name
        ≡ (if is_negative v then out_of_range name else parsed n))
unfolding parse_optional_unsigned
parse-cases none name h = (none, refl)
parse-cases (some (pos n)) name h = let t : ltb n word ≡ true = ground arith in (some n, rw t refl)
parse-cases (some (negsuc n)) name h = (none, refl)

by_signs :
    (a b c : Bool) (x y z : Option ℕ)
    → refusal (
        combined
          (if a then out_of_range "limit" else parsed x)
          (if b then out_of_range "offset" else parsed y)
          (if c then out_of_range "timeout_secs" else parsed z))
      ≡ (if a
          then some "limit"
          else if b
          then some "offset"
          else if c
          then some "timeout_secs"
          else none)
by_signs true b c x y z = refl
by_signs false true c x y z = refl
by_signs false false true x y z = refl
by_signs false false false x y z = refl

-- A paging request of 64-bit fields is refused exactly when one of them is negative, and the refusal names
-- the first of those: the limit, the offset, the timeout. No field is too large.
pub parse_xrefs_paging-refusal :
    (req : XrefsRequest)
    → IsI64 req.limit
    → IsI64 req.offset
    → IsI64 req.timeout_secs
    → refusal (parse_xrefs_paging req) ≡ first_negative req
unfolding parse_xrefs_paging
parse_xrefs_paging-refusal req l o t =
    rw
      (
        (parse-cases req.limit "limit" l).1,
        (parse-cases req.offset "offset" o).1,
        (parse-cases req.timeout_secs "timeout_secs" t).1,
      )
      (by_signs (is_negative req.limit) (is_negative req.offset) (is_negative req.timeout_secs) _ _
        _)
