-- ===== src/Examples/OfIo.antt =====
-- The theorems on tools/apm_suite/io.py at concrete inputs.
use dtd_server_apm.Common.{
  ℕ, ◌≡◌, ◌≢◌, refl, true, false, [], ◌∷◌, ◌++◌, Text, codes, any, ltb, Option, some, nat_eq,
  list_eq, if◌then◌else◌,
}
use dtd_server_apm.Common.Dict.{contains}
use dtd_server_apm.Io.Comments.{strip_json_comments}
use dtd_server_apm.Io.Comments.Lines.{lines, lines-strip_json_comments}
use dtd_server_apm.Io.Comments.Clean.{is_clean, strip_json_comments-clean}
use dtd_server_apm.Io.Json.{
  Json, null, num, str, arr, obj, nil, cons, end, field, too_deep, max_json_depth,
}
use dtd_server_apm.Io.Json.Depth.{nesting, too_deep-nesting}
use dtd_server_apm.Io.Json.Surrogates.{
  is_surrogate, is_encodable, sans_surrogates, sans_surrogates-encodable,
}
use dtd_server_apm.Io.Json.Load.{has_escape}
use dtd_server_apm.Io.Members.{
  is_invisible, parts, is_absolute, resolved_parts, member_is_safe, member_is_safe_inside,
}

abbrev commented : Text
commented = codes "{ /* one */ \"url\": \"http://x\" // two"

abbrev plain : Text
plain = codes "{\"url\": \"http://x\"}"

-- A document with a lone surrogate in a key and in a string.
abbrev document : Json ℕ
document = obj (field (0xd800 ∷ []) (arr (cons (str (b'a' ∷ 0xdfff ∷ [])) (cons (num 3) nil))) end)

lines-strip_json_comments_example : lines (strip_json_comments commented) ≡ lines commented
lines-strip_json_comments_example = lines-strip_json_comments commented

strip_json_comments-clean_example :
    (is_clean false (strip_json_comments commented) ≡ true)
    × (strip_json_comments (strip_json_comments commented) ≡ strip_json_comments commented)
strip_json_comments-clean_example = strip_json_comments-clean commented

plain-is_clean : is_clean false plain ≡ true
unfolding is_clean
plain-is_clean = refl

too_deep-nesting_example : too_deep document ≡ ltb max_json_depth (nesting document)
too_deep-nesting_example = too_deep-nesting document

sans_surrogates-encodable_example :
    (is_encodable (sans_surrogates document) ≡ true)
    × (is_encodable document ≡ true → sans_surrogates document ≡ document)
sans_surrogates-encodable_example = sans_surrogates-encodable document

abbrev member : Text
member = codes "cpu/perf/stacks.folded"

member_is_safe-member : member_is_safe member ≡ true
unfolding member_is_safe contains parts is_absolute
member_is_safe-member = refl

member_is_safe_inside_example :
    (resolved_parts (codes "srv" ∷ []) member ≡ (codes "srv" ∷ []) ++ parts member)
    × (parts member ≢ [])
    × (any is_surrogate member ≡ false)
    × (any is_invisible member ≡ false)
member_is_safe_inside_example =
    member_is_safe_inside (codes "srv" ∷ []) member member_is_safe-member

-- A reader that decodes a text with an escape to the document above and any other to null.
abbrev toy_loads : Text → Option (Json ℕ)
toy_loads text = if has_escape text then some document else some null

abbrev escape_text : Text
escape_text = codes "\"\\ud800\""
