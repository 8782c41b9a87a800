-- ===== src/Protocol.antt =====
-- src/daemon/mod.rs: the reader of one line of the daemon's protocol. The stream is what `fill_buf`
-- returns in turn: chunks of bytes, the end of the stream after them.
pub mod Lines
use ida_rs_cli.Base.{
  ℕ, Bool, true, false, Option, none, some, List, [], ◌∷◌, ◌++◌, length, ltb, if◌then◌else◌, ◌==◌,
  nat_eq,
}

pub data Read : Type 0 where
  line : List ℕ → List (List ℕ) → Read
  too_long : List (List ℕ) → Read

-- `position` of the first newline, with what stands before and behind it.
abbrev at_newline : ℕ → Option (List ℕ × List ℕ) → Option (List ℕ × List ℕ)
at_newline b none = none
at_newline b (some (before, behind)) = some (b ∷ before, behind)

abbrev pub split_newline : List ℕ → Option (List ℕ × List ℕ)
split_newline [] = none
split_newline (b ∷ bs) =
    let rest = at_newline b (split_newline bs) in if b == 10 then some ([], bs) else rest

-- What stays in the buffer after `consume`.
abbrev pub unread : List ℕ → List (List ℕ) → List (List ℕ)
unread [] chunks = chunks
unread (b ∷ bs) chunks = (b ∷ bs) ∷ chunks

abbrev pub ended : ℕ → List ℕ → List (List ℕ) → Read
ended max out rest = if ltb max (length out) then too_long rest else line out rest

unfoldable pub read_from : ℕ → List ℕ → List (List ℕ) → Read
read_from max out [] = line out []
read_from max out ([] ∷ chunks) = line out ([] ∷ chunks)
read_from max out ((b ∷ bs) ∷ chunks) = elim (split_newline (b ∷ bs)) [
  | some (before, behind) ↦ ended max (out ++ before) (unread behind chunks)
  | none ↦
      let rest = read_from max (out ++ b ∷ bs) chunks in
      if ltb max (length (out ++ b ∷ bs)) then too_long chunks else rest
]

unfoldable pub read_line_capped : ℕ → List (List ℕ) → Read
read_line_capped max chunks = read_from max [] chunks
