-- ===== src/Common/Join.antt =====
-- Joining texts by one character, splitting them again, and texts that lack a character.
use Prim.Native.Nat.{ℕ}
use mathlib.Core.Path.{◌≡◌, refl, ap, sym, ◌∙◌}
use mathlib.Core.Logic.{◌≢◌}
use mathlib.Core.List.{List, [], ◌∷◌, ◌++◌, append_assoc, append-nil}
use native.Mathlib.Omega.{arith}
use dtd_server_apm.Common.Tests.{◌==◌, if◌then◌else◌}
use dtd_server_apm.Common.Lists.{Text, All}
use dtd_server_apm.Common.Chars.{split, split_from}

-- `sep.join(parts)` for a separator of one character.
unfoldable pub join : ℕ → List Text → Text
join sep [] = []
join sep (p ∷ []) = p
join sep (p ∷ q ∷ ps) = p ++ sep ∷ join sep (q ∷ ps)

-- `text.replace(a, b)` for two characters.
unfoldable pub replace : ℕ → ℕ → Text → Text
replace a b [] = []
replace a b (c ∷ s) = (if c == a then b else c) ∷ replace a b s

abbrev pub Lacks : ℕ → Text → Type 0
Lacks c = All (λ d. d ≢ c)

pub replace-Lacks : (a b : ℕ) (s : Text) → b ≢ a → Lacks a (replace a b s)
unfolding replace
replace-Lacks a b [] h = tt
replace-Lacks a b (c ∷ s) h = (ground arith, replace-Lacks a b s h)

split_from-append :
    (sep : ℕ) (cur p rest : Text)
    → Lacks sep p
    → split_from sep cur (p ++ rest) ≡ split_from sep (cur ++ p) rest
unfolding split_from
split_from-append sep cur [] rest h = rw append-nil
split_from-append sep cur (c ∷ p) rest h =
    ground (arith, split_from-append sep (cur ++ c ∷ []) p rest h.1, append_assoc cur (c ∷ []) p)

split_from_sep : (sep : ℕ) (cur s : Text) → split_from sep cur (sep ∷ s) ≡ cur ∷ split_from sep [] s
unfolding split_from
split_from_sep sep cur s = ground arith

split_from-join :
    (sep : ℕ) (p : Text) (ps : List Text)
    → Lacks sep p
    → All (Lacks sep) ps
    → split_from sep [] (join sep (p ∷ ps)) ≡ p ∷ ps
unfolding join
split_from-join sep p [] h hs =
    ap (split_from sep []) (sym (append-nil p))
    ∙ split_from-append sep [] p [] h
    ∙ (unfold split_from in refl)
split_from-join sep p (q ∷ ps) h hs =
    rw (split_from-append sep [] p _ h, split_from_sep, split_from-join sep q ps hs.0 hs.1)

pub split-join :
    (sep : ℕ) (ps : List Text) → ps ≢ [] → All (Lacks sep) ps → split (join sep ps) sep ≡ ps
unfolding split
split-join sep [] h hs = absurd (h refl)
split-join sep (p ∷ ps) h hs = split_from-join sep p ps hs.0 hs.1
