-- ===== src/Io/Comments/Lines.antt =====
-- Comments leave their newlines behind, so a parse error still points at the operator's line.
use dtd_server_apm.Common.{
  ℕ, zero, suc, ◌+◌, ◌≤◌, ◌≡◌, refl, Bool, true, false, [], ◌∷◌, ◌++◌, ◌==◌, if◌then◌else◌, Text,
  length, newline, arith,
}
use dtd_server_apm.Io.Comments.{
  from_newline, after_close, newlines_to_close, walk, strip_json_comments,
}

-- `text.count("\n")`.
pub lines : Text → ℕ
lines [] = 0
lines (c ∷ t) = (if c == newline then 1 else 0) + lines t

pub length-from_newline : (t : Text) → length (from_newline t) ≤ length t
unfolding from_newline
length-from_newline [] = omega arith
length-from_newline (c ∷ t) = ground (arith, length-from_newline t)

lines-from_newline : (t : Text) → lines (from_newline t) ≡ lines t
unfolding from_newline lines
lines-from_newline [] = refl
lines-from_newline (c ∷ t) = ground (arith, lines-from_newline t)

pub length-after_close : (t : Text) → length (after_close t) ≤ length t
unfolding after_close
length-after_close [] = omega arith
length-after_close (c ∷ []) = ground (arith, length-after_close [])
length-after_close (c ∷ d ∷ t) = ground (arith, length-after_close (d ∷ t))

lines-append : (s t : Text) → lines (s ++ t) ≡ lines s + lines t
unfolding lines
lines-append [] t = omega arith
lines-append (c ∷ s) t = omega (arith, lines-append s t)

lines-close : (t : Text) → lines (newlines_to_close t) + lines (after_close t) ≡ lines t
unfolding newlines_to_close after_close lines
lines-close [] = refl
lines-close (c ∷ []) = ground (arith, lines-close [])
lines-close (c ∷ d ∷ t) = ground (arith, lines-close (d ∷ t))

lines-walk : (f : ℕ) (s : Bool) (t : Text) → length t ≤ f → lines (walk f s t) ≡ lines t
unfolding walk lines
lines-walk zero s [] h = refl
lines-walk zero s (c ∷ t) h = absurd (omega arith)
lines-walk (suc f) s [] h = refl
lines-walk (suc f) true (c ∷ []) h = refl
lines-walk (suc f) true (c ∷ d ∷ t) h =
    ground (arith, lines-walk f true t, lines-walk f false (d ∷ t), lines-walk f true (d ∷ t))
lines-walk (suc f) false (c ∷ []) h = ground (arith, lines-walk f true [], lines-walk f false [])
lines-walk (suc f) false (c ∷ d ∷ t) h = ground (
  arith,
  lines-walk f true (d ∷ t),
  lines-walk f false (d ∷ t),
  lines-walk f false (from_newline (d ∷ t)),
  lines-walk f false (after_close t),
  length-from_newline (d ∷ t),
  lines-from_newline (d ∷ t),
  length-after_close t,
  lines-close t,
  lines-append (newlines_to_close t) (walk f false (after_close t)),
)

-- Stripping comments keeps the number of newlines of every text.
pub lines-strip_json_comments : (text : Text) → lines (strip_json_comments text) ≡ lines text
unfolding strip_json_comments
lines-strip_json_comments text = lines-walk (length text) false text (omega arith)
