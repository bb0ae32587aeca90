-- ===== src/Profiler/Dumps.antt =====
-- `dumps_deep` of tools/host_profiler/folded_to_speedscope.py: JSON text without recursion. Scalars
-- go through `json.dumps`, the parameter `scalar` (`key` for the strings that are dict keys). The
-- values are JSON documents, whose keys are strings, so the `TypeError` cannot be reached.
pub mod Compact
use dtd_server_apm.Common.{ℕ, zero, suc, ◌+◌, ◌*◌, List, [], ◌∷◌, ◌++◌, Text, codes}
use mathlib.Core.List.{reverse}
use dtd_server_apm.Io.Json.{
  Json, Items, Fields, null, bool, num, str, arr, obj, nil, cons, end, field, to_list, to_pairs,
  size,
}

-- An entry of `stack`; `close` is `_Close` and `raw` is `_Raw`.
pub data Item (N : Type 0) : Type 0 where
  value : Json N → Item N
  close : Text → Item N
  raw : Text → Item N

module _ {N : Type 0} where
  -- The loop over the pairs, last pair first; the head of the list is the top of the stack.
  pub push_pairs : List (Text × Json N) → List (Item N) → List (Item N)
  push_pairs [] stack = stack
  push_pairs ((k, v) ∷ []) stack = value (str k) ∷ raw (codes ":") ∷ value v ∷ stack
  push_pairs ((k, v) ∷ p ∷ pairs) stack =
      push_pairs (p ∷ pairs) (raw (codes ",") ∷ value (str k) ∷ raw (codes ":") ∷ value v ∷ stack)

  -- The loop over the reversed list.
  pub push_items : List (Json N) → List (Item N) → List (Item N)
  push_items [] stack = stack
  push_items (v ∷ []) stack = value v ∷ stack
  push_items (v ∷ w ∷ vs) stack = push_items (w ∷ vs) (raw (codes ",") ∷ value v ∷ stack)

  module _ (scalar : Json N → Text) where
    -- One round: what it writes, and the stack behind it.
    pub emit : Item N → List (Item N) → Text × List (Item N)
    unfolding push_pairs push_items
    emit (close c) stack = (c, stack)
    emit (raw t) stack = (t, stack)
    emit (value (obj fs)) stack =
        (codes "{", push_pairs (reverse (to_pairs fs)) (close (codes "}") ∷ stack))
    emit (value (arr vs)) stack =
        (codes "[", push_items (reverse (to_list vs)) (close (codes "]") ∷ stack))
    emit (value v) stack = (scalar v, stack)

    pub loop : ℕ → List (Item N) → Text → Text
    unfolding emit
    loop zero stack out = out
    loop (suc fuel) [] out = out
    loop (suc fuel) (item ∷ stack) out =
        let (text, stack') = emit item stack in loop fuel stack' (out ++ text)

    -- A node is popped once, with at most four markers, so five rounds for each are enough.
    unfoldable pub dumps_deep : Json N → Text
    unfolding loop size
    dumps_deep v = loop (5 * size v) (value v ∷ []) []
