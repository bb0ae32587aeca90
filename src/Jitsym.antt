-- ===== src/Jitsym.antt =====
-- `load_map` and `_resolver` of tools/apm_suite/analysis/jitsym.py. Python's `int(text, 16)` is a
-- parameter, none for its `ValueError`; it takes a minus sign, so the numbers of a map are integers. The
-- two parallel lists of the source are one list of entries.
pub mod Nearest
use dtd_server_apm.Common.{
  ℕ, zero, suc, ◌+◌, ◌-◌, Bool, true, false, not, List, [], ◌∷◌, ◌++◌, Option, none, some, Text,
  ltb, if◌then◌else◌, is_space, lstrip, get_elem?, newline, ◌=?◌, nat_eq, list_eq, ◌==◌,
}
use mathlib.Core.List.{reverse}
use dtd_server_apm.Common.Sort.{sorted}

-- An integer, as the difference of two numbers.
pub record Signed : Type 0 where
  pub above : ℕ
  pub below : ℕ

abbrev pub is_less : Signed → Signed → Bool
is_less a b = ltb (a.above + b.below) (b.above + a.below)

abbrev pub sum_of : Signed → Signed → Signed
sum_of a b = record { above = a.above + b.above; below = a.below + b.below }

abbrev pub natural : ℕ → Signed
natural n = record { above = n; below = 0 }

pub record SymbolEntry : Type 0 where
  pub start : Signed
  pub end_address : Signed
  pub symbol : Text

-- The part up to the next space, and what follows it.
pub token : Text → Text × Text
unfolding is_space
token [] = ([], [])
token (c ∷ s) = let (word, rest) = token s in if is_space c then ([], c ∷ s) else (c ∷ word, rest)

pub drop_newlines : Text → Text
drop_newlines [] = []
drop_newlines (c ∷ s) = if c == newline then drop_newlines s else c ∷ s

pub entry_at : Option Signed → Option Signed → Text → List SymbolEntry → List SymbolEntry
entry_at (some start) (some size) symbol entries =
    record { start = start; end_address = sum_of start size; symbol = symbol } ∷ entries
entry_at none size symbol entries = entries
entry_at (some start) none symbol entries = entries

module _ (parse_hex : Text → Option Signed) where
  -- One line, of which `split(maxsplit=2)` makes three parts or fewer.
  pub add_line : Text → List SymbolEntry → List SymbolEntry
  unfolding token entry_at lstrip drop_newlines
  add_line raw entries =
      let line = lstrip (reverse (drop_newlines (reverse raw))) in
      let (first, rest) = token line in
      let (second, rest') = token (lstrip rest) in
      if lstrip rest' =? []
      then entries
      else entry_at (parse_hex first) (parse_hex second) (lstrip rest') entries

  pub read_map : List Text → List SymbolEntry
  unfolding add_line
  read_map [] = []
  read_map (raw ∷ lines) = add_line raw (read_map lines)

  unfoldable pub load_map : List Text → List SymbolEntry
  unfolding read_map sorted
  load_map lines = sorted (λ a b. is_less a.start b.start) (read_map lines)

-- `bisect_right(starts, addr)`: how many entries, which are in order, start at `addr` or below.
pub bisect_right : List SymbolEntry → ℕ → ℕ
bisect_right [] addr = 0
bisect_right (e ∷ entries) addr =
    let more = suc (bisect_right entries addr) in if is_less (natural addr) e.start then 0 else more

-- The symbol and the offset of an address, or none where the text stays.
pub entry_within : ℕ → Option SymbolEntry → Option (Text × ℕ)
entry_within addr none = none
entry_within addr (some e) =
    if is_less (natural addr) e.end_address
    then some (e.symbol, addr + e.start.below - e.start.above)
    else none

pub entry_before : List SymbolEntry → ℕ → Option SymbolEntry
entry_before entries zero = none
entry_before entries (suc index) = get_elem? entries index

unfoldable pub resolve : List SymbolEntry → ℕ → Option (Text × ℕ)
unfolding bisect_right entry_within entry_before
resolve entries addr = entry_within addr (entry_before entries (bisect_right entries addr))
