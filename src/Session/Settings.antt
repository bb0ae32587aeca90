-- ===== src/Session/Settings.antt =====
-- `prune_grace_hours` and `keep_sessions_budget` of tools/apm_suite/session.py. The raw text is that of
-- the environment variable. Python's `float` with `math.isfinite` and `< 0.0`, and `int`, are
-- parameters: none is their `ValueError`. The warning on stderr is a flag.
use dtd_server_apm.Common.{
  ◌≡◌, ◌⊎◌, inl, inr, refl, Bool, true, false, not, Option, none, some, Text, strip, ◌=?◌, nat_eq,
  list_eq, if◌then◌else◌, if_cases, [],
}

-- A setting, and whether it warned.
abbrev pub Warned {ℓ} : Type ℓ → Type ℓ
Warned A = A × Bool

module _ {F : Type 0} (parse : Text → Option F) (is_finite is_negative : F → Bool)
    (default : F) where
  pub hours_of : Option F → Warned F
  hours_of none = (default, true)
  hours_of (some hours) =
      if not (is_finite hours)
      then (default, true)
      else if is_negative hours
      then (default, true)
      else (hours, false)

  pub prune_grace_hours : Text → Warned F
  unfolding hours_of
  prune_grace_hours raw = if strip raw =? [] then (default, false) else hours_of (parse raw)

  -- What a setting may be: the default, or without a warning the finite number of hours that the
  -- variable holds and that is not negative.
  pub record IsGrace (raw : Text) (r : Warned F) : Type 0 where
    pub origin :
        (r.0 ≡ default)
        ⊎ ((parse raw ≡ some r.0)
            × (is_finite r.0 ≡ true)
            × (is_negative r.0 ≡ false)
            × (r.1 ≡ false))

  hours_of-IsGrace : (raw : Text) (o : Option F) → parse raw ≡ o → IsGrace raw (hours_of o)
  unfolding hours_of
  hours_of-IsGrace raw none e = record { origin = inl refl }
  hours_of-IsGrace raw (some hours) e =
      if_cases (IsGrace raw) (not (is_finite hours)) _ _ (λ _. record { origin = inl refl })
        (λ finite.
          if_cases (IsGrace raw) (is_negative hours) _ _ (λ _. record { origin = inl refl })
            (λ sign. record { origin = inr (e, not_not (is_finite hours) finite, sign, refl) }))
    where
      not_not : (b : Bool) → not b ≡ false → b ≡ true
      not_not true h = refl
      not_not false h = absurd (cc h)

  -- A value that is no number, not finite or negative never sets the grace: whatever the variable holds,
  -- the grace is the default or the finite number that it spells and that is not negative.
  pub prune_grace_hours-IsGrace : (raw : Text) → IsGrace raw (prune_grace_hours raw)
  unfolding prune_grace_hours
  prune_grace_hours-IsGrace raw =
      if_cases (IsGrace raw) (strip raw =? []) (default, false) (hours_of (parse raw))
        (λ _. record { origin = inl refl }) (λ _. hours_of-IsGrace raw (parse raw) refl)

module _ {Z : Type 0} (parse : Text → Option Z) (default : Z) where
  pub budget_of : Option Z → Warned Z
  budget_of none = (default, true)
  budget_of (some n) = (n, false)

  pub keep_sessions_budget : Text → Warned Z
  unfolding budget_of
  keep_sessions_budget raw = if strip raw =? [] then (default, false) else budget_of (parse raw)
