-- ===== src/Profiler/Collapse/Names.antt =====
-- What a frame name looks like: never empty, and free of the separator.
use dtd_server_apm.Common.{
  ℕ, ◌≡◌, ◌≢◌, refl, Bool, true, false, [], ◌∷◌, ◌++◌, Option, none, some, Text, take, strip,
  replace, Lacks, replace-Lacks, arith, ◌=?◌, nat_eq, list_eq, suc, text_eq, if◌then◌else◌, ◌∙◌,
}
use mathlib.Core.Path.{subst}
use dtd_server_apm.Profiler.Collapse.{
  semicolon, colon, pick_symbol, frame_match, frame_name, name_of, max_frame_len,
}

replace-ne-nil : (a b : ℕ) (s : Text) → s ≢ [] → replace a b s ≢ []
unfolding replace
replace-ne-nil a b [] h = h
replace-ne-nil a b (c ∷ s) h = cc

append-ne-nil : (s t : Text) → s ≢ [] → s ++ t ≢ []
append-ne-nil [] t h = absurd (h refl)
append-ne-nil (c ∷ s) t h = cc

pick_symbol-ne-nil : (symbol m : Text) → pick_symbol symbol m ≢ []
unfolding pick_symbol
pick_symbol-ne-nil [] m = ground arith
pick_symbol-ne-nil (c ∷ s) m = ground arith

take-ne-nil : (n : ℕ) (s : Text) → s ≢ [] → take (suc n) s ≢ []
take-ne-nil n [] h = h
take-ne-nil n (c ∷ s) h = cc

name_of-Lacks : (raw : Text) (m : Option (Text × Text)) → Lacks semicolon (name_of raw m)
unfolding name_of
name_of-Lacks raw none = replace-Lacks semicolon colon raw (omega arith)
name_of-Lacks raw (some (s, m)) = replace-Lacks semicolon colon _ (omega arith)

name_of-ne-nil : (raw : Text) (m : Option (Text × Text)) → raw ≢ [] → name_of raw m ≢ []
unfolding name_of
name_of-ne-nil raw none h = replace-ne-nil semicolon colon raw h
name_of-ne-nil raw (some (s, m)) h =
    replace-ne-nil semicolon colon _ (pick_symbol-ne-nil (strip s) (strip m))

some_of_if {ℓ} :
    {A : Type ℓ} (b : Bool) (x : A) {y : A}
    → (if b then none else some x) ≡ some y
    → (b ≡ false) × (x ≡ y)
some_of_if true x h = cc
some_of_if false x h = (refl, cc)

-- Every name that `frame_name` returns is not empty and holds no semicolon.
pub frame_name-Lacks :
    (line name : Text) → frame_name line ≡ some name → (name ≢ []) × Lacks semicolon name
unfolding frame_name
frame_name-Lacks line name h =
    let raw : Text = take max_frame_len (strip line) in
    let m : Option (Text × Text) = frame_match raw in
    let (more, e) = some_of_if (strip line =? []) (name_of raw m) h in
    let full : strip line ≢ [] = λ z. cc ((text_eq.beq_iff (strip line) []).1 z, more) in
    (
      λ z. name_of-ne-nil raw m (take-ne-nil 2047 (strip line) full) (e ∙ z),
      subst (Lacks semicolon) e (name_of-Lacks raw m),
    )
