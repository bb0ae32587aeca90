-- ===== src/Profiler/Folded.antt =====
-- `load_folded` of tools/host_profiler/folded_to_speedscope.py, on the lines of the file. Python's `float`
-- on text, `math.isfinite` and `int`, which cuts to a whole number (0 for all below 1), are parameters.
pub mod Rows
use dtd_server_apm.Common.{
  ℕ, Bool, true, false, not, List, [], ◌∷◌, ◌++◌, Option, none, some, Text, ◌=?◌, nat_eq, list_eq,
  ◌==◌, if◌then◌else◌, strip, split, keep, take,
}
use dtd_server_apm.Profiler.Collapse.{max_stack_depth, semicolon}

-- `text.rsplit(" ", 1)` as two parts, or none where there is no blank.
pub rsplit : Text → Option (Text × Text)
rsplit [] = none
rsplit (c ∷ s) = elim (rsplit s) [
  | some (before, after) ↦ some (c ∷ before, after)
  | none ↦ if c == b' ' then some ([], s) else none
]

-- `[f for f in stack_s.split(";") if f][:MAX_STACK_DEPTH]`.
pub frames_of : Text → List Text
unfolding split keep
frames_of stack = take max_stack_depth (keep (λ f. not (f =? [])) (split stack semicolon))

module _ {F : Type 0} (parse : Text → Option F) (is_finite : F → Bool) (whole : F → ℕ) where
  -- What a line adds, given its two parts and the number.
  pub add_row : Text → Option F → List (List Text × ℕ) → List (List Text × ℕ)
  unfolding frames_of
  add_row stack none rows = rows
  add_row stack (some value) rows =
      if not (is_finite value)
      then rows
      else if whole value == 0
      then rows
      else if frames_of stack =? []
      then rows
      else (frames_of stack, whole value) ∷ rows

  pub add_parts : Option (Text × Text) → List (List Text × ℕ) → List (List Text × ℕ)
  unfolding add_row
  add_parts none rows = rows
  add_parts (some (stack, count)) rows = add_row stack (parse count) rows

  unfoldable pub load_folded : List Text → List (List Text × ℕ)
  unfolding add_parts rsplit strip
  load_folded [] = []
  load_folded (raw ∷ lines) =
      let rows = load_folded lines in
      if strip raw =? [] then rows else add_parts (rsplit (strip raw)) rows
