-- ===== src/Bundle/Scrub.antt =====
-- `_scrub` and `_excluded_member` of tools/apm_suite/bundle.py.
use dtd_server_apm.Common.{
  Bool, true, false, ◌||◌, List, [], ◌∷◌, Text, codes, nat_eq, list_eq, if◌then◌else◌, any,
  starts_with,
}
use dtd_server_apm.Common.Dict.{contains}
use dtd_server_apm.Io.Json.{
  Json, null, bool, num, str, arr, obj, Items, nil, cons, Fields, end, field,
}

-- `_REDACT_KEYS`.
abbrev pub redact_keys : List Text
redact_keys = codes "cmdline" ∷ codes "exe" ∷ []

abbrev pub redacted_mark : Text
redacted_mark = codes "<redacted>"

module _ {N : Type 0} where
  abbrev pub is_text : Json N → Bool
  is_text (str s) = true
  is_text _ = false

-- `_scrub`.
unfoldable mutual
  pub scrub : {N : Type 0} → Json N → Json N
  scrub null = null
  scrub (bool b) = bool b
  scrub (num n) = num n
  scrub (str s) = str s
  scrub (arr vs) = arr (scrub_items vs)
  scrub (obj fs) = obj (scrub_fields fs)

  pub scrub_items : {N : Type 0} → Items N → Items N
  scrub_items nil = nil
  scrub_items (cons v vs) = cons (scrub v) (scrub_items vs)

  pub scrub_fields : {N : Type 0} → Fields N → Fields N
  scrub_fields end = end
  scrub_fields (field k v fs) =
      let inner = scrub v in
      field k
        (if contains redact_keys k then (if is_text v then str redacted_mark else inner) else inner)
        (scrub_fields fs)

-- `marker in text`.
unfoldable pub occurs : Text → Text → Bool
occurs marker [] = starts_with [] marker
occurs marker (c ∷ s) = starts_with (c ∷ s) marker || occurs marker s

-- `_EXCLUDED_LOWERED`; its last name is `MONO_BIND_MOUNT_NAME`.
abbrev pub excluded_names : List Text
excluded_names =
    codes "perf.data"
    ∷ codes "bridge.jsonl"
    ∷ codes "manifest.json"
    ∷ codes "libmonobdwgc-2.0.so"
    ∷ []

abbrev pub server_log_markers : List Text
server_log_markers = codes "efficientserver" ∷ codes "output_log" ∷ []

-- `_excluded_member`; `lower` is Python's `str.lower`.
unfoldable pub excluded_member : (Text → Text) → Text → Bool
unfolding occurs
excluded_member lower name =
    contains excluded_names (lower name)
    || any (λ marker. occurs marker (lower name)) server_log_markers
