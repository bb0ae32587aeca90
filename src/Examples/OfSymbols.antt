-- ===== src/Examples/OfSymbols.antt =====
-- The theorems on folded stacks and on the map of the JIT symbols at concrete inputs.
use dtd_server_apm.Common.{
  ℕ, ◌==◌, ◌≡◌, refl, true, List, [], ◌∷◌, Option, none, some, Text, codes, leb, ◌&&◌, ◌-◌, ◌+◌,
  ◌*◌, if◌then◌else◌, is_space, lstrip, strip, split, keep,
}
use dtd_server_apm.Profiler.Folded.{load_folded}
use dtd_server_apm.Jitsym.{Signed, natural, load_map, resolve}
use dtd_server_apm.Jitsym.Nearest.{IsResolution, load_map-IsResolution}

-- A number of one or two decimal digits.
abbrev parse_digits : Text → Option ℕ
parse_digits (c ∷ []) = if leb b'0' c && leb c b'9' then some (c - b'0') else none
parse_digits (c ∷ d ∷ []) = some ((c - b'0') * 10 + (d - b'0'))
parse_digits text = none

abbrev folded_lines : List Text
folded_lines = codes "main;op call 3" ∷ codes "x" ∷ codes " " ∷ codes "main;;gc 12" ∷ []

folded_rows :
    load_folded parse_digits (λ n. true) (λ n. n) folded_lines
    ≡ (codes "main" ∷ codes "op call" ∷ [], 3) ∷ (codes "main" ∷ codes "gc" ∷ [], 12) ∷ []
unfolding load_folded strip split keep
folded_rows = refl

-- The same, or a minus sign and a digit.
abbrev parse_signed : Text → Option Signed
parse_signed (c ∷ []) = some (natural (c - b'0'))
parse_signed (c ∷ d ∷ []) =
    if c == b'-'
    then some (record { above = 0; below = d - b'0' })
    else some (natural ((c - b'0') * 10 + (d - b'0')))
parse_signed text = none

abbrev map_lines : List Text
map_lines = codes "20 8 Tick (int)" ∷ codes "-4 9 Load" ∷ codes "torn" ∷ []

resolved : resolve (load_map parse_signed map_lines) 23 ≡ some (codes "Tick (int)", 3)
unfolding resolve load_map lstrip is_space
resolved = refl

-- An entry from -4 to 5 covers the address 3.
resolved_below : resolve (load_map parse_signed map_lines) 3 ≡ some (codes "Load", 7)
unfolding resolve load_map lstrip is_space
resolved_below = refl

load_map-IsResolution_example :
    IsResolution (load_map parse_signed map_lines) 23 (codes "Tick (int)") 3
load_map-IsResolution_example =
    load_map-IsResolution parse_signed map_lines 23 (codes "Tick (int)") 3 resolved
