-- ===== src/Dsc.antt =====
-- src/dsc.rs: the escaping of texts that go into generated Python scripts. A text is its code points.
pub mod Escape
use ida_rs_cli.Base.{ℕ, List, [], ◌∷◌, ◌++◌, if◌then◌else◌, ◌==◌, nat_eq}

-- `str::replace` of one character by a text.
abbrev pub replace : ℕ → List ℕ → List ℕ → List ℕ
replace c with_text [] = []
replace c with_text (x ∷ xs) =
    let rest = replace c with_text xs in if x == c then with_text ++ rest else x ∷ rest

-- A backslash, a double quote, a line feed and a carriage return, one after the other.
unfoldable pub escape_python_string : List ℕ → List ℕ
escape_python_string s =
    replace 13 (92 ∷ 114 ∷ [])
      (replace 10 (92 ∷ 110 ∷ []) (replace 34 (92 ∷ 34 ∷ []) (replace 92 (92 ∷ 92 ∷ []) s)))
