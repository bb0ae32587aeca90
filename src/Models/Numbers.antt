-- ===== src/Models/Numbers.antt =====
-- Python's floats, and the numbers that JSON decodes to, as far as the tools compute with them.
use dtd_server_apm.Common.{ℕ, ◌≡◌, Bool, true, Option, Text, if◌then◌else◌, leb}
use dtd_server_apm.Io.Json.{Json}

pub record Floats (N F : Type 0) : Type 0 where
  -- `float` of a JSON number and of a text; none is its exception
  pub of_num : N → Option F
  pub parse : Text → Option F
  pub is_finite : F → Bool
  -- `bool(x)` of a float and of a JSON number
  pub is_true : F → Bool
  pub is_true_num : N → Bool
  -- `str` of a value that is no string
  pub show : Json N → Text
  -- comparison and arithmetic
  pub lt : F → F → Bool
  pub le : F → F → Bool
  pub plus_float : F → F → F
  pub sub : F → F → F
  pub mul : F → F → F
  pub div : F → F → F
  pub zero_float : F
  -- the literal with so many hundredths
  pub hundredths : ℕ → F
  -- `round(x, digits)` and the `format` of a number with a format string
  pub round : F → ℕ → F
  pub format : F → Text → Text

module _ {N F : Type 0} (fl : Floats N F) where
  open fl use {lt}

  -- Python's `max` and `min` of two: the first unless the second is beyond it.
  abbrev pub max_float : F → F → F
  max_float a b = if lt a b then b else a

  abbrev pub min_float : F → F → F
  min_float a b = if lt b a then b else a

-- The comparisons on their own: `<` implies `<=`, and `<=` is transitive, also where NaN is about.
pub record IsOrdered {N F : Type 0} (fl : Floats N F) : Type 0 where
  pub lt-le : (x y : F) → fl.lt x y ≡ true → fl.le x y ≡ true
  pub le-trans : (x y z : F) → fl.le x y ≡ true → fl.le y z ≡ true → fl.le x z ≡ true
  pub zero-literal : fl.zero_float ≡ fl.hundredths 0
  pub literals : (m n : ℕ) → leb m n ≡ true → fl.le (fl.hundredths m) (fl.hundredths n) ≡ true
  pub round-le :
      (x y : F) (digits : ℕ)
      → fl.le x y ≡ true
      → fl.le (fl.round x digits) (fl.round y digits) ≡ true
