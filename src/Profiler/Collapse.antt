-- ===== src/Profiler/Collapse.antt =====
-- tools/host_profiler/stackcollapse_perf.py: `perf script` lines to folded stacks. The two patterns
-- are written out as scanners; which characters `\d` takes beside "0" to "9" is a parameter, the
-- Unicode database of Python.
pub mod Names
pub mod Sums
pub mod Counts
use dtd_server_apm.Common.{
  ℕ, zero, suc, ◌+◌, Bool, true, false, not, ◌&&◌, ◌||◌, List, [], ◌∷◌, ◌++◌, Option, none, some,
  ltb, leb, ◌==◌, if◌then◌else◌, Text, length, take, drop, all, newline, codes, is_space, lstrip,
  strip, join, replace, ◌=?◌, nat_eq, list_eq, get_or_zero,
}
use dtd_server_apm.Common.Dict.{lookup, insert}
use dtd_server_apm.Io.Members.{parts}
use mathlib.Core.List.{reverse, foldl}

abbrev pub max_frame_len : ℕ
max_frame_len = 2048

abbrev pub max_stack_depth : ℕ
max_stack_depth = 4096

abbrev pub semicolon : ℕ
semicolon = b';'

abbrev pub colon : ℕ
colon = b':'

-- The longest prefix of characters that pass a test, dropped; and whether it is not empty.
pub skip : (ℕ → Bool) → Text → Text
skip p [] = []
skip p (c ∷ s) = let rest = skip p s in if p c then rest else c ∷ s

abbrev pub head_is : (ℕ → Bool) → Text → Bool
head_is p [] = false
head_is p (c ∷ s) = p c

unfoldable pub is_hex : ℕ → Bool
is_hex c = leb b'0' c && leb c b'9' || leb b'a' c && leb c b'f' || leb b'A' c && leb c b'F'

-- The part of the header pattern behind the process name: `\s+(\d+)(?:/(\d+))?\s+`.
header_tail : (ℕ → Bool) → Text → Bool
unfolding skip
header_tail is_digit s =
    let pid = skip is_space s in
    let rest = skip is_digit pid in
    head_is is_space s
    && head_is is_digit pid
    && (head_is is_space rest
        || head_is (λ c. c == b'/') rest
          && head_is is_digit (drop 1 rest)
          && head_is is_space (skip is_digit (drop 1 rest)))

-- `HEADER.match(line)`: `^(\S+)\s+(\d+)(?:/(\d+))?\s+`. Neighbouring classes are disjoint, so each
-- run is taken whole.
unfoldable pub is_header : (ℕ → Bool) → Text → Bool
unfolding header_tail
is_header is_digit line =
    head_is (λ c. not (is_space c)) line && header_tail is_digit (skip (λ c. not (is_space c)) line)

-- `(?:0x)?[0-9a-fA-F]+\s+`: what follows the address, if one leads the line.
strip_0x : Text → Text
strip_0x [] = []
strip_0x (c ∷ []) = c ∷ []
strip_0x (c ∷ d ∷ s) = if c == b'0' && d == b'x' && head_is is_hex s then s else c ∷ d ∷ s

after_address : Text → Option Text
unfolding strip_0x skip
after_address s =
    let hex = strip_0x s in
    let rest = skip is_hex hex in
    if head_is is_hex hex && head_is is_space rest then some (skip is_space rest) else none

-- `(?:\((.*)\))?$` behind the spaces: the module, "" if there is none.
module_group : Text → Option Text
module_group [] = some []
module_group (c ∷ s) =
    let inner = reverse (drop 1 (reverse s)) in
    if c == b'(' && head_is (λ d. d == b')') (reverse s) then some inner else none

or_else {ℓ} : {A : Type ℓ} → Option A → Option A → Option A
or_else (some a) o = some a
or_else none o = o

-- `(?:\+0x[0-9a-fA-F]+)?`: the offset is taken where that leads to a match.
offset : Text → Option Text
offset (c ∷ d ∷ e ∷ s) =
    if c == b'+' && d == b'0' && e == b'x' && head_is is_hex s then some (skip is_hex s) else none
offset _ = none

tail_group : Text → Option Text
unfolding skip module_group or_else offset
tail_group s =
    or_else (elim (offset s) [ some r ↦ module_group (skip is_space r) | none ↦ none ])
      (module_group (skip is_space s))

-- `(.*?)` takes the shortest symbol behind which the rest of the pattern matches.
symbol_group : Text → Text → Text × Text
unfolding tail_group
symbol_group taken [] = (taken, [])
symbol_group taken (c ∷ s) = elim (tail_group (c ∷ s)) [
  | some m ↦ (taken, m)
  | none ↦ symbol_group (taken ++ c ∷ []) s
]

-- `FRAME.match(raw)`: the groups `symbol` and `module`.
pub frame_match : Text → Option (Text × Text)
unfolding after_address symbol_group
frame_match raw = elim (after_address raw) [ some s ↦ some (symbol_group [] s) | none ↦ none ]

abbrev pub unknown : Text
unknown = codes "[unknown]"

abbrev pub is_unknown : Text → Bool
is_unknown s = s =? [] || s =? unknown

-- `PurePath(module).name`: the last part, "" if there is none.
pub last_part : List Text → Text
last_part [] = []
last_part (p ∷ []) = p
last_part (p ∷ q ∷ ps) = last_part (q ∷ ps)

-- The symbol that a frame is given.
pub pick_symbol : Text → Text → Text
unfolding last_part
pick_symbol symbol module' =
    if is_unknown symbol
    then (if is_unknown module'
        then (if module' =? [] then unknown else codes "[jit]")
        else codes "[" ++ last_part (parts module') ++ codes "]")
    else symbol

-- The name, from the match of the cut line.
pub name_of : Text → Option (Text × Text) → Text
unfolding pick_symbol
name_of raw none = replace semicolon colon raw
name_of raw (some (symbol, module')) =
    replace semicolon colon (pick_symbol (strip symbol) (strip module'))

unfoldable pub frame_name : Text → Option Text
unfolding frame_match name_of
frame_name line =
    let raw = take max_frame_len (strip line) in
    if strip line =? [] then none else some (name_of raw (frame_match raw))

pub record Collapse : Type 0 where
  pub counts : List (Text × ℕ)
  pub stack : List Text
  pub in_stack : Bool

-- `counts[key] += 1`.
pub bump : Text → List (Text × ℕ) → List (Text × ℕ)
bump key counts = insert key (get_or_zero (lookup key counts) + 1) counts

-- An empty stack is not counted; the frames are joined from root to leaf.
pub flush_counts : List Text → List (Text × ℕ) → List (Text × ℕ)
unfolding bump
flush_counts [] counts = counts
flush_counts (f ∷ fs) counts = bump (join semicolon (reverse (f ∷ fs))) counts

-- `flush()`.
pub flush : Collapse → Collapse
unfolding flush_counts
flush s = record s { counts = flush_counts s.stack s.counts; stack = [] }

-- `line.rstrip("\n")`.
rstrip_newline : Text → Text
unfolding skip
rstrip_newline s = reverse (skip (λ c. c == newline) (reverse s))

pub push_frame : Option Text → Collapse → Collapse
push_frame none s = s
push_frame (some name) s =
    if not (name =? []) && ltb (length s.stack) max_stack_depth
    then record s { stack = s.stack ++ name ∷ [] }
    else s

-- One round of the loop.
unfoldable pub step : (ℕ → Bool) → Collapse → Text → Collapse
unfolding flush push_frame is_header rstrip_newline
step is_digit s raw =
    let line = rstrip_newline raw in
    if all is_space line
    then (if s.in_stack then record (flush s) { in_stack = false } else s)
    else if is_header is_digit line
    then record (if s.in_stack then flush s else s) { in_stack = true }
    else if s.in_stack
    then push_frame (frame_name line) s
    else s

abbrev pub start : Collapse
start = record { counts = []; stack = []; in_stack = false }

pub run : (ℕ → Bool) → Collapse → List Text → Collapse
run is_digit s [] = s
run is_digit s (line ∷ lines) = run is_digit (step is_digit s line) lines

unfoldable pub collapse : (ℕ → Bool) → List Text → List (Text × ℕ)
unfolding run
collapse is_digit lines =
    let s = run is_digit start lines in (if s.in_stack then flush s else s).counts
