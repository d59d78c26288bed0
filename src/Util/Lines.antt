-- ===== src/Util/Lines.antt =====
-- `getmultiline` of util.c: lines that a backslash goes on. A stream is the list of the lines that
-- getline(3) has not read yet, with the newline of each that has one.
use minijail.Base.{
  ℕ, zero, suc, List, [], ◌∷◌, ◌++◌, Option, none, some, if◌then◌else◌, ◌==◌, length, Bytes,
}

-- `line[--ret] = '\0'` where the last byte is `c`, none where it is not.
unfoldable pub drop_last : ℕ → Bytes → Option Bytes
drop_last c [] = none
drop_last c (x ∷ []) = if x == c then some [] else none
drop_last c (x ∷ y ∷ s) = elim (drop_last c (y ∷ s)) [ none ↦ none | some t ↦ some (x ∷ t) ]

unfoldable pub eat_newline : Bytes → Bytes
eat_newline line = elim (drop_last b'\n' line) [ none ↦ line | some s ↦ s ]

-- The line and what is left of the stream, none for -1.
unfoldable pub getmultiline : List Bytes → Option (Bytes × List Bytes)
getmultiline [] = none
getmultiline (raw ∷ stream) = elim (drop_last b'\\' (eat_newline raw)) [
  | none ↦ some (eat_newline raw, stream)
  | some line ↦ elim (getmultiline stream) [
    | none ↦ none
    | some (next_line, rest) ↦ some (line ++ (b' ' ∷ next_line), rest)
  ]
]

-- `while (getmultiline(&line, &len, file) != -1)`, with fuel for the rounds.
unfoldable pub read_lines : ℕ → List Bytes → List Bytes
read_lines zero stream = []
read_lines (suc n) stream = elim (getmultiline stream) [
  | none ↦ []
  | some (line, rest) ↦ line ∷ read_lines n rest
]

-- Each round reads a line of the stream, and one more round finds none.
unfoldable pub read_all : List Bytes → List Bytes
read_all stream = read_lines (suc (length stream)) stream
