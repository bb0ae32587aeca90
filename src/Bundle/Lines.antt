-- ===== src/Bundle/Lines.antt =====
-- The scrub of one line of a text artifact, tools/apm_suite/bundle.py: `SERVER_LOG_LINE`,
-- `_scrub_jsonl_line` and the inner `scrub` of `_stream_scrubbed_member`.
use dtd_server_apm.Common.{
  ℕ, zero, suc, Bool, true, false, ◌&&◌, List, [], ◌∷◌, ◌++◌, Option, none, some, Text, codes, ◌==◌,
  if◌then◌else◌, starts_with, lstrip, drop, length, newline, split,
}
use dtd_server_apm.Io.Json.{Json}
use dtd_server_apm.Bundle.Scrub.{scrub}

-- `text.replace(old, new)` for an `old` that is not empty; the number is how many characters of a match
-- are still to be left out.
unfoldable pub replace_from : Text → Text → ℕ → Text → Text
replace_from old new k [] = []
replace_from old new (suc k) (c ∷ s) = replace_from old new k s
replace_from old new zero (c ∷ s) =
    let skipped = replace_from old new (length (drop 1 old)) s in
    let kept = replace_from old new zero s in
    if starts_with (c ∷ s) old then new ++ skipped else c ∷ kept

-- `text.replace(home, "~")`.
unfoldable pub hide_home : Text → Text → Text
unfolding replace_from
hide_home home s = replace_from home (codes "~") zero s

-- A pattern of one character each, `d` for `\d`, at the start of a text.
unfoldable pub has_shape : (ℕ → Bool) → Text → Text → Bool
has_shape is_digit [] s = true
has_shape is_digit (k ∷ shape) [] = false
has_shape is_digit (k ∷ shape) (c ∷ s) =
    (if k == b'd' then is_digit c else c == k) && has_shape is_digit shape s

abbrev pub stamp_shape : Text
stamp_shape = codes "dddd-dd-ddTdd:dd:dd"

-- `SERVER_LOG_LINE.match(line)`.
unfoldable pub is_server_line : (ℕ → Bool) → Text → Bool
unfolding has_shape lstrip
is_server_line is_digit line = has_shape is_digit stamp_shape (lstrip line)

-- The lines of an open text file without their line ends: a break at the end opens no line.
pub drop_empty_last : List Text → List Text
drop_empty_last [] = []
drop_empty_last ([] ∷ []) = []
drop_empty_last ((c ∷ s) ∷ []) = (c ∷ s) ∷ []
drop_empty_last (p ∷ q ∷ ps) = p ∷ drop_empty_last (q ∷ ps)

unfoldable pub file_lines : Text → List Text
unfolding drop_empty_last
file_lines content = drop_empty_last (split content newline)

-- What the scrubs take from Python's json, re and str, and the home directory of the user.
pub record Tools (N : Type 0) : Type 0 where
  -- `str.lower`, and `\d` of one character
  pub lower : Text → Text
  pub is_digit : ℕ → Bool
  -- `json.loads` of a line; `json_loads(read_text(path))` of a file's bytes; `json.dumps` on one line
  -- and with an indent of 2
  pub loads : Text → Option (Json N)
  pub load_document : Text → Option (Json N)
  -- of the bytes of `meta.json`, `str` of the value of "only", and no text where this is not true;
  -- none where `load_json` refuses them
  pub only_in_meta : Text → Option Text
  pub dumps : Json N → Text
  pub dumps_indented : Json N → Text
  -- reading bytes as text that replaces what is not UTF-8 and makes every line end a line feed, and
  -- `encode("utf-8")`
  pub decode : Text → Text
  pub encode : Text → Text
  pub home : Text

module _ {N : Type 0} (tools : Tools N) where
  open tools use {is_digit, loads, dumps, home}

  unfoldable pub parsed_line : Text → Option (Json N) → Text
  parsed_line line none = hide_home home line
  parsed_line line (some v) = hide_home home (dumps (scrub v))

  -- `_scrub_jsonl_line`.
  unfoldable pub scrub_jsonl_line : Text → Text
  unfolding parsed_line
  scrub_jsonl_line line = parsed_line line (loads line)

  -- The inner `scrub` of `_stream_scrubbed_member`; none leaves the line out.
  unfoldable pub scrub_line : Bool → Text → Option Text
  unfolding scrub_jsonl_line
  scrub_line jsonl line =
      if jsonl
      then some (scrub_jsonl_line line)
      else if is_server_line is_digit line
      then none
      else some (hide_home home line)

  -- The lines of a member, and the bytes that are stored.
  unfoldable pub kept_line : Option Text → List Text → List Text
  kept_line none rest = rest
  kept_line (some body) rest = body ∷ rest

  unfoldable pub scrub_lines : Bool → List Text → List Text
  unfolding scrub_line kept_line
  scrub_lines jsonl [] = []
  scrub_lines jsonl (line ∷ lines) = kept_line (scrub_line jsonl line) (scrub_lines jsonl lines)
