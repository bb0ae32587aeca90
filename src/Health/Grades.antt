-- ===== src/Health/Grades.antt =====
-- What a grade says.
use dtd_server_apm.Common.{
  ℕ, ◌≤◌, ◌≡◌, ◌≢◌, refl, true, List, [], ◌∷◌, none, some, Text, if◌then◌else◌, if_cases, inl, inr,
  ◌⊎◌, arith,
}
use dtd_server_apm.Models.Numbers.{Floats, max_float, min_float, IsOrdered}
use dtd_server_apm.Health.{
  Grade, grade_a, grade_b, grade_c, grade_d, grade_f, insufficient, medium, no_reason, Health,
  Weighing, grade_in, grade_for, clamp, judge, compute_health, weigh_all, sum_weights,
  layer_weights,
}

-- From F up to A.
abbrev pub rank : Grade → ℕ
rank grade_f = 0
rank grade_d = 1
rank grade_c = 2
rank grade_b = 3
rank grade_a = 4

module _ {N F : Type 0} (fl : Floats N F) (laws : IsOrdered fl) where
  grade_step :
      (minimum : ℕ) (x y : F)
      → fl.le x y ≡ true
      → fl.le (fl.hundredths minimum) x ≡ true
      → fl.le (fl.hundredths minimum) y ≡ true
  grade_step minimum x y h k = laws.le-trans (fl.hundredths minimum) x y k h

  -- A health that is not lower never has a worse grade.
  pub grade_for_monotone :
      (x y : F) → fl.le x y ≡ true → rank (grade_for fl x) ≤ rank (grade_for fl y)
  unfolding grade_for grade_in
  grade_for_monotone x y h =
      let to_a = grade_step 8500 x y h in
      let to_b = grade_step 7000 x y h in
      let to_c = grade_step 5500 x y h in
      let to_d = grade_step 4000 x y h in ground (arith, to_a, to_b, to_c, to_d)

  clamp-within :
      (x : F)
      → (fl.le fl.zero_float (clamp fl x) ≡ true)
        × (fl.le (clamp fl x) (fl.hundredths 10_000) ≡ true)
  clamp-within x = rw laws.zero-literal (go x)
    where
      In : F → Type 0
      In y = (fl.le (fl.hundredths 0) y ≡ true) × (fl.le y (fl.hundredths 10_000) ≡ true)

      floor :
          (y : F) → fl.le y (fl.hundredths 10_000) ≡ true → In (max_float fl (fl.hundredths 0) y)
      floor y top =
          if_cases In (fl.lt (fl.hundredths 0) y) y (fl.hundredths 0)
            (λ above. (laws.lt-le (fl.hundredths 0) y above, top))
            (λ _. (laws.literals 0 0 refl, laws.literals 0 10_000 refl))

      go : (x : F) → In (max_float fl (fl.hundredths 0) (min_float fl (fl.hundredths 10_000) x))
      go x =
          if_cases (λ y. In (max_float fl (fl.hundredths 0) y)) (fl.lt x (fl.hundredths 10_000)) x
            (fl.hundredths 10_000) (λ below. floor x (laws.lt-le x (fl.hundredths 10_000) below))
            (λ _. floor (fl.hundredths 10_000) (laws.literals 10_000 10_000 refl))

  -- What a result of the score is.
  pub record IsJudged (r : Health F) : Type 0 where
    pub verdict :
        ((h : F) × (r.health ≡ some h)
          × (r.grade ≡ some (grade_for fl h))
          × (r.confidence ≡ medium)
          × (fl.le (fl.round fl.zero_float 2) h ≡ true)
          × (fl.le h (fl.round (fl.hundredths 10_000) 2) ≡ true))
        ⊎ ((r.health ≡ none)
            × (r.grade ≡ none)
            × (r.confidence ≡ insufficient)
            × (r.reason ≢ no_reason))

  judge-IsJudged : (w : Weighing F) → IsJudged (judge fl w)
  unfolding judge
  judge-IsJudged w =
      if_cases IsJudged
        (fl.lt (fl.round (fl.div w.weight_sum (sum_weights fl fl.zero_float layer_weights)) 3)
          (fl.hundredths 80))
        _ _ (λ _. record { verdict = inr (refl, refl, refl, (λ e. cc e)) })
        (λ _.
          let x =
            fl.sub (fl.hundredths 10_000)
              (if fl.is_true w.weight_sum then fl.div w.weighted w.weight_sum else fl.zero_float) in
          let (low, high) = clamp-within x in
          record {
            verdict = inl (
              fl.round (clamp fl x) 2,
              refl,
              refl,
              refl,
              laws.round-le fl.zero_float (clamp fl x) 2 low,
              laws.round-le (clamp fl x) (fl.hundredths 10_000) 2 high,
            );
          })

  -- Where the float comparisons are ordered and rounding keeps the order, a score has a health between
  -- the rounded 0 and the rounded 100, and then the grade of exactly this number; or it has neither
  -- health nor grade, and says why.
  pub compute_health-IsJudged : (layers : List (Text × F)) → IsJudged (compute_health fl layers)
  unfolding compute_health
  compute_health-IsJudged [] = record { verdict = inr (refl, refl, refl, (λ e. cc e)) }
  compute_health-IsJudged (layer ∷ layers) = judge-IsJudged (
      weigh_all fl (record { weighted = fl.zero_float; weight_sum = fl.zero_float; detail = [] })
        (layer ∷ layers))
