-- ===== src/Io/Claim.antt =====
-- `_next_candidate`, `claim_dir` and `claim_file` of tools/apm_suite/io.py. The two claims walk the same
-- names and differ only in what the creating call makes; a name is a path as text, and the state is
-- the names that exist.
pub mod Free
pub mod Apart
use dtd_server_apm.Common.{
  Bool, List, Option, Text, [], false, if◌then◌else◌, keep, length, list_eq, nat_eq, none, not,
  some, suc, true, zero, ℕ, ◌++◌, ◌+◌, ◌=?◌, ◌∷◌,
}
use dtd_server_apm.Common.Decimal.{str}
use dtd_server_apm.Common.Dict.{contains}

-- `base`, then `base_1`, `base_2`, ...
unfoldable pub suffixed : Text → ℕ → Text
suffixed base zero = base
suffixed base (suc k) = base ++ b'_' ∷ str (suc k)

-- The loop of a claim that runs alone, from a suffix on: the name and the names there are then.
unfoldable pub claim_loop : ℕ → Text → ℕ → List Text → Text × List Text
claim_loop zero base k names = (suffixed base k, names)
claim_loop (suc fuel) base k names =
    let rest = claim_loop fuel base (suc k) names in
    if contains names (suffixed base k) then rest else (suffixed base k, suffixed base k ∷ names)

-- Every refusal meets another existing name, so one round more than there are names is enough.
pub claim : Text → List Text → Text × List Text
unfolding claim_loop
claim base names = claim_loop (suc (length names)) base 0 names

-- A claim between two of its calls: where it is in the walk, and what it returned.
pub record Claimer : Type 0 where
  pub base : Text
  pub suffix : ℕ
  pub result : Option Text

-- One creating call, of a claim that has returned or not: it fails on a name that exists, and the
-- claim advances.
unfoldable pub attempt_by : Option Text → Claimer → List Text → Claimer × List Text
attempt_by (some r) c names = (c, names)
attempt_by none c names =
    if contains names (suffixed c.base c.suffix)
    then (record c { suffix = suc c.suffix }, names)
    else (record c { result = some (suffixed c.base c.suffix) }, suffixed c.base c.suffix ∷ names)

unfoldable pub attempt : Claimer → List Text → Claimer × List Text
unfolding attempt_by
attempt c names = attempt_by c.result c names

-- Whose call is next: that of one of two claims, or another program's that makes or removes a name.
pub data Turn : Type 0 where
  first second : Turn
  other : Text → Turn
  unlinked : Text → Turn

pub record World : Type 0 where
  pub one : Claimer
  pub two : Claimer
  pub names : List Text

unfoldable pub turn : Turn → World → World
unfolding attempt keep
turn first w = let (c, names) = attempt w.one w.names in record w { one = c; names = names }
turn second w = let (c, names) = attempt w.two w.names in record w { two = c; names = names }
turn (other name) w = record w { names = name ∷ w.names }
turn (unlinked name) w = record w { names = keep (λ n. not (n =? name)) w.names }

unfoldable pub turns : List Turn → World → World
turns [] w = w
turns (t ∷ ts) w = turns ts (turn t w)
