-- ===== src/Tests/Dsc.antt =====
-- The escaping for Python scripts on a small text.
use ida_rs_cli.Base.{ℕ, some, List, [], ◌∷◌, ◌++◌, ◌≡◌, refl, nat_eq}
use ida_rs_cli.Dsc.{escape_python_string}
use ida_rs_cli.Dsc.Escape.{read_quoted, read_quoted-escape_python_string}

-- A name that tries to end the text: a backslash, a quote, a line feed and an `x`.
abbrev hostile : List ℕ
hostile = 92 ∷ 34 ∷ 10 ∷ 120 ∷ []

escaped : escape_python_string hostile ≡ 92 ∷ 92 ∷ 92 ∷ 34 ∷ 92 ∷ 110 ∷ 120 ∷ []
unfolding escape_python_string nat_eq
escaped = refl

read_quoted-escape_python_string_example :
    read_quoted (escape_python_string hostile ++ 34 ∷ 41 ∷ []) ≡ some (hostile, 41 ∷ [])
read_quoted-escape_python_string_example = read_quoted-escape_python_string hostile (41 ∷ [])
