-- ===== src/Profiler/Folded/Rows.antt =====
-- What every loaded row is.
use dtd_server_apm.Common.{
  ℕ, zero, suc, ◌≤◌, ◌≢◌, Bool, not, List, [], ◌∷◌, Option, none, some, Text, ◌=?◌, nat_eq, list_eq,
  ◌==◌, ==_iff, if_cases, keep, take, length, All, text_eq, Eq, arith, split, strip,
}
use dtd_server_apm.Profiler.Collapse.{max_stack_depth, semicolon}
use dtd_server_apm.Profiler.Folded.{rsplit, frames_of, add_row, add_parts, load_folded}

All-take {ℓ κ} : {A : Type ℓ} (P : A → Type κ) (n : ℕ) (xs : List A) → All P xs → All P (take n xs)
All-take P zero xs h = tt
All-take P (suc n) [] h = tt
All-take P (suc n) (x ∷ xs) h = (h.0, All-take P n xs h.1)

length-take {ℓ} : {A : Type ℓ} (n : ℕ) (xs : List A) → length (take n xs) ≤ n
length-take zero xs = omega arith
length-take (suc n) [] = omega arith
length-take (suc n) (x ∷ xs) = omega (arith, length-take n xs)

keep-full : (xs : List Text) → All (λ f. f ≢ []) (keep (λ f. not (f =? [])) xs)
unfolding keep
keep-full [] = tt
keep-full (f ∷ fs) =
    if_cases (All (λ f. f ≢ [])) (not (f =? [])) (f ∷ keep (λ f. not (f =? [])) fs) _
      (λ e. ((λ z. cc ((text_eq.beq_iff f []).1 z, e)), keep-full fs)) (λ _. keep-full fs)

-- Equality of lists of frames, by name.
abbrev frames_eq : Eq (List Text)
frames_eq = list_eq

pub record IsRow (row : List Text × ℕ) : Type 0 where
  pub some_frame : row.0 ≢ []
  pub within : length row.0 ≤ max_stack_depth
  pub full : All (λ f. f ≢ []) row.0
  pub counted : row.1 ≢ 0

module _ {F : Type 0} (parse : Text → Option F) (is_finite : F → Bool) (whole : F → ℕ) where
  add_row-IsRow :
      (stack : Text) (o : Option F) (rows : List (List Text × ℕ))
      → All IsRow rows
      → All IsRow (add_row parse is_finite whole stack o rows)
  unfolding add_row
  add_row-IsRow stack none rows h = h
  add_row-IsRow stack (some value) rows h =
      if_cases (All IsRow) (not (is_finite value)) rows _ (λ _. h)
        (λ _.
          if_cases (All IsRow) (whole value == 0) rows _ (λ _. h)
            (λ positive.
              if_cases (All IsRow) (frames_of stack =? []) rows _ (λ _. h)
                (λ framed. (
                  record {
                    some_frame = λ z. cc ((frames_eq.beq_iff (frames_of stack) []).1 z, framed);
                    within = unfold frames_of in length-take max_stack_depth _;
                    full =
                        unfold frames_of in
                        All-take (λ f. f ≢ []) max_stack_depth _
                          (keep-full (split stack semicolon));
                    counted = λ z. cc ((==_iff (whole value) 0).1 z, positive);
                  },
                  h,
                ))))

  add_parts-IsRow :
      (o : Option (Text × Text)) (rows : List (List Text × ℕ))
      → All IsRow rows
      → All IsRow (add_parts parse is_finite whole o rows)
  unfolding add_parts
  add_parts-IsRow none rows h = h
  add_parts-IsRow (some (stack, count)) rows h = add_row-IsRow stack (parse count) rows h

  -- Whatever the lines, every row has one frame at least and 4096 at most, none of them empty, and a
  -- count that is not 0.
  pub load_folded-IsRow : (lines : List Text) → All IsRow (load_folded parse is_finite whole lines)
  unfolding load_folded
  load_folded-IsRow [] = tt
  load_folded-IsRow (raw ∷ lines) =
      if_cases (All IsRow) (strip raw =? []) (load_folded parse is_finite whole lines) _
        (λ _. load_folded-IsRow lines)
        (λ _. add_parts-IsRow (rsplit (strip raw)) _ (load_folded-IsRow lines))
