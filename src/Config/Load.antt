-- ===== src/Config/Load.antt =====
-- `ParseLine` and `LoadConfig` of HPGateway/src/gateway/GatewayContext.cpp.
use chater.Common.{
  ℕ, ◌+◌, ◌-◌, Bool, true, false, ◌&&◌, ◌||◌, Option, none, some, List, [], ◌∷◌, leb, ◌==◌,
  if◌then◌else◌, length, take, drop, is_empty, ◌>>=◌,
}
use chater.Config.{Text, Config, trim, find, is_none, front, back}
use chater.Config.Keys.{key_of, set_key}

-- The value without quotes around it.
unfoldable pub unquote : Text → Text
unquote v =
    if leb 2 (length v) && ((front v == 34) && (back v == 34))
    then take (length v - 2) (drop 1 v)
    else v

-- A setting that is split at its colon.
unfoldable pub assign : ℕ → Text → Config → Option Config
assign colon line c = elim (key_of (trim (take colon line))) [
  | none ↦ some c
  | some k ↦ set_key k (unquote (trim (drop (colon + 1) line))) c
]

-- `ParseLine`
unfoldable pub parse_line : Text → Config → Option Config
parse_line line c =
    let trimmed = trim line in
    if is_empty trimmed || (front trimmed == 35)
    then some c
    else (if (back trimmed == 58) && is_none (find 32 trimmed)
        then some c
        else elim (find 58 trimmed) [ none ↦ some c | some colon ↦ assign colon trimmed c ])

abbrev pub join_line : ℕ → List Text → List Text
join_line c [] = (c ∷ []) ∷ []
join_line c (l ∷ ls) = (c ∷ l) ∷ ls

-- The lines that `std::getline` gives.
unfoldable pub lines_of : Text → List Text
lines_of [] = []
lines_of (c ∷ s) = let ls = lines_of s in if c == 10 then [] ∷ ls else join_line c ls

unfoldable pub parse_lines : List Text → Config → Option Config
parse_lines [] c = some c
parse_lines (l ∷ ls) c = do c' ← parse_line l c; parse_lines ls c'

-- `LoadConfig`, with the text of the file or `none` if it cannot be opened.
unfoldable pub load_config : Option Text → Config → Option (Bool × Config)
load_config none c = some (false, c)
load_config (some file) c = do c' ← parse_lines (lines_of file) c; some (true, c')
