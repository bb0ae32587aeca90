-- ===== src/Common/Decimal.antt =====
-- Python's decimal text of a natural number, `f"{n}"`.
use Prim.Native.Nat.{ℕ, zero, suc, ◌+◌, ◌-◌, ◌*◌, ◌/◌, ◌%◌, ◌≤◌, ◌<◌}
use mathlib.Core.Path.{◌≡◌, sym, ap, ◌∙◌}
use mathlib.Core.List.{[], ◌∷◌}
use native.Mathlib.Omega.{arith}
use dtd_server_apm.Common.Tests.{ltb, if◌then◌else◌, if_cases, ltb→lt}
use mathlib.Core.Logic.{◌≢◌}
use dtd_server_apm.Common.Lists.{Text, All}

digits : ℕ → ℕ → Text → Text
digits zero n out = out
digits (suc fuel) n out =
    let rest = digits fuel (n / 10) ((b'0' + n % 10) ∷ out) in
    if ltb n 10 then (b'0' + n % 10) ∷ out else rest

-- Every round divides by ten, so `n` rounds and one are enough.
unfoldable pub str : ℕ → Text
unfolding digits
str n = digits (suc n) n []

value_from : ℕ → Text → ℕ
value_from acc [] = acc
value_from acc (c ∷ s) = value_from (acc * 10 + (c - b'0')) s

value_from-digits :
    (fuel n : ℕ) (out : Text) → n < fuel → value_from 0 (digits fuel n out) ≡ value_from n out
unfolding digits value_from
value_from-digits zero n out h = absurd (omega arith)
value_from-digits (suc fuel) n out h =
    if_cases (λ s. value_from 0 s ≡ value_from n out) (ltb n 10) ((b'0' + n % 10) ∷ out)
      (digits fuel (n / 10) ((b'0' + n % 10) ∷ out))
      (λ e. let lt = ltb→lt n 10 e in ap (λ k. value_from k out) (omega arith))
      (λ e.
        let ge : 10 ≤ n = ground arith in
        value_from-digits fuel (n / 10) ((b'0' + n % 10) ∷ out) (omega arith)
        ∙ ap (λ k. value_from k out) (omega arith))

-- Different numbers have different texts.
pub str-injective : (m n : ℕ) → str m ≡ str n → m ≡ n
unfolding str value_from
str-injective m n h =
    sym (value_from-digits (suc m) m [] (omega arith))
    ∙ ap (value_from 0) h
    ∙ value_from-digits (suc n) n [] (omega arith)

digits-no_newline :
    (fuel n : ℕ) (out : Text) → All (λ d. d ≢ 10) out → All (λ d. d ≢ 10) (digits fuel n out)
unfolding digits
digits-no_newline zero n out h = h
digits-no_newline (suc fuel) n out h =
    if_cases (All (λ d. d ≢ 10)) (ltb n 10) ((b'0' + n % 10) ∷ out)
      (digits fuel (n / 10) ((b'0' + n % 10) ∷ out)) (λ _. (λ e. omega arith, h))
      (λ _. digits-no_newline fuel (n / 10) ((b'0' + n % 10) ∷ out) (λ e. omega arith, h))

-- No line break is in the text of a number.
pub str-no_newline : (n : ℕ) → All (λ d. d ≢ 10) (str n)
unfolding str
str-no_newline n = digits-no_newline (suc n) n [] tt
