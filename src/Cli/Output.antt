-- ===== src/Cli/Output.antt =====
-- cmd/disco/internal/cli/output.go: what the commands print. A slice out of range panics (`none`).
use disco.Base.{
  Str, Str_eq, bytes, ℕ, zero, suc, Bool, List, [], ◌∷◌, ◌++◌, Option, none, some, if◌then◌else◌,
  ltb, leb, length, replicate, map, ◌+◌, ◌-◌, ◌≟◌,
}

-- `s[:n]` of a text that is long enough.
unfoldable pub prefix : ℕ → Str → Str
prefix zero s = []
prefix (suc n) [] = []
prefix (suc n) (c ∷ s) = c ∷ prefix n s

-- Truncate: below two, the end of the slice is negative.
unfoldable pub truncate : Str → ℕ → Option Str
unfolding prefix
truncate s max_len =
    if leb (length s) max_len
    then some s
    else if ltb max_len 2
    then none
    else some (prefix (max_len - 2) s ++ bytes "..")

unfoldable pub join_strings : List Str → Str → Str
join_strings [] sep = []
join_strings (s ∷ []) sep = s
join_strings (s ∷ next ∷ strs) sep = s ++ sep ++ join_strings (next ∷ strs) sep

pub data Color : Type 0 where
  red green yellow blue : Color

unfoldable pub escape : Color → Str
escape red = 27 ∷ bytes "[31m"
escape green = 27 ∷ bytes "[32m"
escape yellow = 27 ∷ bytes "[33m"
escape blue = 27 ∷ bytes "[34m"

-- Colorize, where `terminal` says whether the standard output is one.
unfoldable pub colorize : Bool → Str → Color → Str
unfolding escape
colorize terminal text color = if terminal then escape color ++ text ++ 27 ∷ bytes "[0m" else text

unfoldable pub colorize_status : Bool → Str → Str
unfolding colorize
colorize_status terminal status =
    if status ≟ bytes "healthy"
    then colorize terminal status green
    else if status ≟ bytes "stale"
    then colorize terminal status yellow
    else if status ≟ bytes "lost"
    then colorize terminal status red
    else if status ≟ bytes "static"
    then colorize terminal status blue
    else status

pub record Table : Type 0 where
  pub headers : List Str
  pub rows : List (List Str)
  pub widths : List ℕ

unfoldable pub new_table : List Str → Table
new_table headers = record { headers = headers; rows = []; widths = map length headers }

-- The row of AddRow, as long as the headers, and the widths with it.
unfoldable pub padded : List Str → List Str → List Str
padded [] values = []
padded (h ∷ headers) [] = [] ∷ padded headers []
padded (h ∷ headers) (v ∷ values) = v ∷ padded headers values

unfoldable pub widened : List ℕ → List Str → List ℕ
widened [] values = []
widened (w ∷ widths) [] = w ∷ widths
widened (w ∷ widths) (v ∷ values) =
    (if ltb w (length v) then length v else w) ∷ widened widths values

unfoldable pub add_row : List Str → Table → Table
unfolding padded widened
add_row values t = record t {
  rows = t.rows ++ padded t.headers values ∷ [];
  widths = widened t.widths values;
}

-- `%-*s` of a value that the row's widths cover, and the row with its separators.
unfoldable pub cell : ℕ → Str → Str
cell width v = v ++ replicate (width - length v) 32

unfoldable pub row_text : List ℕ → List Str → Str
unfolding cell
row_text widths [] = []
row_text [] (v ∷ []) = v
row_text (w ∷ widths) (v ∷ []) = cell w v
row_text [] (v ∷ next ∷ values) = v ++ bytes "  " ++ row_text [] (next ∷ values)
row_text (w ∷ widths) (v ∷ next ∷ values) =
    cell w v ++ bytes "  " ++ row_text widths (next ∷ values)

-- The line of printSeparator is two wider than each column, and one more between them.
unfoldable pub separator_width : List ℕ → ℕ
separator_width [] = 0
separator_width (w ∷ []) = w + 2
separator_width (w ∷ next ∷ widths) = w + 3 + separator_width (next ∷ widths)

-- `Print`: the lines.
unfoldable pub print : Table → List Str
unfolding row_text separator_width
print t =
    row_text t.widths t.headers
    ∷ replicate (separator_width t.widths) 45
    ∷ map (row_text t.widths) t.rows
