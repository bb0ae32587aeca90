-- ===== src/Examples/OfProfiler.antt =====
-- The theorems on tools/host_profiler at concrete inputs.
use dtd_server_apm.Common.{
  ℕ, ◌≤◌, ◌≡◌, refl, Bool, ◌&&◌, List, [], ◌∷◌, ◌++◌, some, Text, codes, leb, map, sum, All, strip,
  replace, join,
}
use dtd_server_apm.Common.Dict.{insert, lookup}
use dtd_server_apm.Io.Json.{Json, null, num, str, arr, obj, nil, cons, end, field}
use dtd_server_apm.Profiler.Collapse.{is_hex, is_header, frame_name, step, collapse}
use dtd_server_apm.Profiler.Collapse.Sums.{total}
use dtd_server_apm.Profiler.Collapse.Counts.{headers, IsFolded, collapse_splits}
use dtd_server_apm.Profiler.Speedscope.{to_speedscope}
use dtd_server_apm.Profiler.Speedscope.Decode.{decode, to_speedscope_decodes}
use dtd_server_apm.Profiler.Dumps.{dumps_deep}
use dtd_server_apm.Profiler.Dumps.Compact.{compact, dumps_deep-compact}

abbrev is_ascii_digit : ℕ → Bool
is_ascii_digit c = leb b'0' c && leb c b'9'

abbrev frame_line : Text
frame_line = codes "        7f3a1c op;call+0x1f (/usr/lib/libmono.so)"

abbrev perf_lines : List Text
perf_lines =
    codes "srv 123 10.5: cycles:"
    ∷ frame_line
    ∷ codes "        7f3a1d main+0x2 (/usr/bin/srv)"
    ∷ []
    ∷ []

named_frame : frame_name frame_line ≡ some (codes "op:call")
unfolding frame_name strip is_hex replace
named_frame = refl

one_stack : collapse is_ascii_digit perf_lines ≡ (codes "main;op:call", 1) ∷ []
unfolding collapse step is_header is_hex frame_name strip replace insert join lookup
one_stack = refl

collapse_splits_example :
    All IsFolded (collapse is_ascii_digit perf_lines)
    × (total (collapse is_ascii_digit perf_lines) ≤ headers is_ascii_digit perf_lines)
collapse_splits_example = collapse_splits is_ascii_digit perf_lines

abbrev rows : List (List Text × ℕ)
rows =
    (codes "main" ∷ codes "tick" ∷ [], 3) ∷ (codes "main" ∷ codes "gc" ∷ codes "tick" ∷ [], 4) ∷ []

to_speedscope_decodes_example :
    (map
        (decode (to_speedscope rows (codes "cpu")).frames)
        (to_speedscope rows (codes "cpu")).samples
      ≡ map (λ row. map some row.0) rows)
    × ((to_speedscope rows (codes "cpu")).weights ≡ map (λ row. row.1) rows)
    × ((to_speedscope rows (codes "cpu")).end_value ≡ sum (map (λ row. row.1) rows))
to_speedscope_decodes_example = to_speedscope_decodes rows (codes "cpu")

-- A writer for the scalars of this example.
abbrev write_scalar : Json ℕ → Text
write_scalar (num n) = n ∷ []
write_scalar (str s) = b'"' ∷ s ++ b'"' ∷ []
write_scalar v = codes "null"

abbrev tree : Json ℕ
tree =
    obj
      (field (codes "n") (num b'7') (field (codes "c") (arr (cons null (cons (obj end) nil))) end))

tree_text : dumps_deep write_scalar tree ≡ codes "{\"n\":7,\"c\":[null,{}]}"
unfolding dumps_deep
tree_text = refl

dumps_deep-compact_example : dumps_deep write_scalar tree ≡ compact write_scalar tree
dumps_deep-compact_example = dumps_deep-compact write_scalar tree
