-- ===== src/Session/Audit.antt =====
-- `audit_session` of tools/apm_suite/session.py, with `_structured_results` and the walk that hashes
-- the artifacts.
pub mod Integrity
use dtd_server_apm.Common.{
  ℕ, ◌+◌, ◌≡◌, Bool, true, false, not, ◌&&◌, ◌||◌, List, [], ◌∷◌, ◌++◌, Option, none, some, Text,
  codes, ◌=?◌, nat_eq, list_eq, if◌then◌else◌, length, map, ◌==◌, any, split, strip, starts_with,
}
use mathlib.Core.List.{reverse}
use dtd_server_apm.Common.Dict.{lookup, insert, contains}
use dtd_server_apm.Collectors.{specs, find_spec, requested, layer_requested}
use dtd_server_apm.Common.Sort.{sorted}
use dtd_server_apm.Io.Members.{member_is_safe, parts}
use dtd_server_apm.Session.Files.{
  Node, regular, locked, directory, symlink, Session, is_file, regular_file_size, read, write,
}
use dtd_server_apm.Io.Json.{Json, Fields, null, str, obj, end}
use dtd_server_apm.Io.Json.Load.{load_json}
use dtd_server_apm.Models.{get, as_mapping, truthy, effective_seconds}
use dtd_server_apm.Common.Order.{text_lt}
use dtd_server_apm.Session.Manifest.{
  Finding, missing_or_empty, escapes, recorded_but_missing, size_changed, hash_differs, unreadable,
  baseline_lost, schema_unreadable, schema_failed, invalid_result, Artifact, Status, ok, skipped,
  failed, unavailable, interrupted, Collector, Warning, no_evidence, capture_warnings, frame_spikes,
  unknown_start, Manifest, Meta, ℤ, pos, negsuc, Conversion, converted, value_error, unexpected,
  manifest_name, required, validated_documents, Platform,
}
use dtd_server_apm.Session.Review.{
  base_name, parent, ends_with, parts_lt, in_order, legacy_results, review, review_all,
  requested_layers_of, capture_warning, has_size,
}
use dtd_server_apm.Session.Verify.{
  verify_artifact, verify_artifacts, verify_recorded_hashes, missing_required_documents,
  validate_documents, verify_session,
}

abbrev pub is_nil {ℓ} : {A : Type ℓ} → List A → Bool
is_nil [] = true
is_nil (x ∷ xs) = false

pub record Audit : Type 0 where
  pub manifest : Manifest
  pub valid : Bool
  -- the session that is left behind
  pub session : Session

module _ (p : Platform) where
  open p use {sha256, encode_manifest, decode_result, loads, int, floats, is_stamp, is_in_range}

  -- The loop over the paths: regular files that can be read, but for every `manifest.json`.
  unfoldable pub artifacts_in : Session → List Artifact
  artifacts_in [] = []
  artifacts_in ((path, regular content) ∷ s) =
      let rest = artifacts_in s in
      if base_name (parts path) =? manifest_name
      then rest
      else record { path = path; bytes = length content; sha256 = sha256 content } ∷ rest
  artifacts_in ((path, locked n) ∷ s) = artifacts_in s
  artifacts_in ((path, directory n) ∷ s) = artifacts_in s
  artifacts_in ((path, symlink t) ∷ s) = artifacts_in s

  -- `_structured_results`: the documents `*.result.json` below a directory.
  pub results_in : Session → Session → List Collector × List Finding
  results_in whole [] = ([], [])
  results_in whole ((path, node) ∷ s) =
      let (found, errors) = results_in whole s in
      if ends_with path (codes ".result.json") && not (parent (parts path) =? [])
      then elim (read whole path) [
        | none ↦ (found, unreadable path ∷ errors)
        | some text ↦ elim (decode_result text) [
          | none ↦ (found, invalid_result path ∷ errors)
          | some c ↦ (c ∷ found, errors)
        ]
      ]
      else (found, errors)

  -- `_int(value, default)`.
  pub int_or_default : Json Text → ℤ → ℤ
  int_or_default value default = elim (int value) [
    | converted n ↦ n
    | value_error ↦ default
    | unexpected ↦ default
  ]

  -- `Field(gt=0)` of the target's pid.
  pub is_positive : ℤ → Bool
  is_positive (pos n) = not (n == 0)
  is_positive (negsuc n) = false

  -- The text of a start time that `parse_stamp` takes.
  pub parse_stamp : Json Text → Option Text
  parse_stamp (str s) = if is_stamp s then some s else none
  parse_stamp v = none

  -- `capture_window` computes the end without an exception.
  pub ends : Option Text → Text → Bool
  ends none window = true
  ends (some started) window =
      if floats.lt floats.zero_float window then is_in_range started window else true

  pub is_started : Option Text → Bool
  is_started none = false
  is_started (some started) = true

  pub only_text : Json Text → Option Text
  only_text (str s) = some s
  only_text v = none

  -- What the audit reads of the document, at each place.
  pub meta_of : Fields Text → Meta
  unfolding int_or_default is_positive parse_stamp ends is_started only_text effective_seconds
  meta_of meta = record {
    only = only_text (get meta (codes "only"));
    no_app = truthy floats (get meta (codes "no_app"));
    has_start = is_started (parse_stamp (get meta (codes "utc")));
    has_target = is_positive (int_or_default (get meta (codes "pid")) (pos 1));
    has_end = ends (parse_stamp (get meta (codes "utc"))) (effective_seconds floats meta);
  }

  pub object_or_empty : Option (Json Text) → Fields Text
  object_or_empty none = end
  object_or_empty (some v) = as_mapping v

  unfoldable pub load_meta : Session → Meta
  unfolding load_json meta_of object_or_empty
  load_meta s = meta_of (object_or_empty (load_json loads (read s (codes "meta.json"))))

  -- `int(spikes or 0)`: a `ValueError` is passed over, any other exception ends the audit, as none.
  pub spikes_of : Conversion → Option (List Warning)
  spikes_of (converted (pos n)) = if n == 0 then some [] else some (frame_spikes (pos n) ∷ [])
  spikes_of (converted (negsuc n)) = some (frame_spikes (negsuc n) ∷ [])
  spikes_of value_error = some []
  spikes_of unexpected = none

  pub count_spikes : Json Text → Option (List Warning)
  unfolding spikes_of
  count_spikes v = if truthy floats v then spikes_of (int v) else some []

  -- `(events.get("by_kind") or {}).get("frame_spike")`: what is true and no object has no `get`.
  pub spikes_in : Json Text → Option (List Warning)
  unfolding count_spikes
  spikes_in (obj kinds) = count_spikes (get kinds (codes "frame_spike"))
  spikes_in v = if truthy floats v then none else some []

  pub spikes_loaded : Option (Json Text) → Option (List Warning)
  unfolding spikes_in
  spikes_loaded none = some []
  spikes_loaded (some v) = spikes_in (get (as_mapping v) (codes "by_kind"))

  unfoldable pub spike_warning : Session → Option (List Warning)
  unfolding load_json spikes_loaded
  spike_warning s = spikes_loaded (load_json loads (read s (codes "events.json")))

  -- The manifest that an audit builds, given the findings of the tamper check and the warning of spikes.
  unfoldable pub manifest_with : Session → List Finding → List Warning → Manifest
  unfolding results_in load_meta artifacts_in
  manifest_with s tampered spikes =
      let meta = load_meta s in
      let (results, result_errors) = results_in s (in_order s) in
      let collectors : List Collector = elim results [ [] ↦ legacy_results s | c ∷ cs ↦ c ∷ cs ] in
      let layers = requested_layers_of meta in
      let (reviewed, warnings) = review_all meta (map strip layers) collectors in
      record {
        requested_layers = layers;
        collectors = reviewed;
        artifacts = artifacts_in (in_order s);
        warnings =
            warnings
            ++ (capture_warning s
                ++ (spikes ++ (if meta.has_start then [] else unknown_start ∷ [])));
        errors =
            missing_required_documents p s
            ++ (tampered ++ (validate_documents p s ++ result_errors));
      }

  unfoldable pub manifest_by : Session → List Finding → Option (List Warning) → Option Manifest
  manifest_by s tampered none = none
  manifest_by s tampered (some spikes) =
      if (load_meta s).has_end && (load_meta s).has_target
      then some (manifest_with s tampered spikes)
      else none

  -- none where the audit raises, which leaves the session as it is.
  unfoldable pub build_manifest : Session → List Finding → Option Manifest
  build_manifest s tampered = manifest_by s tampered (spike_warning s)

  -- A failed verification does not rewrite `manifest.json`.
  unfoldable pub audit_with : Session → List Finding → Option Manifest → Option Audit
  audit_with s tampered none = none
  audit_with s tampered (some manifest) = some (record {
    manifest = manifest;
    valid = is_nil manifest.errors;
    session = if is_nil tampered then write s manifest_name (encode_manifest manifest) else s;
  })

  -- What the tamper check finds, where it is asked for.
  unfoldable pub tampered_in : Session → Bool → List Finding
  tampered_in s verify_recorded = if verify_recorded then verify_recorded_hashes p s else []

  unfoldable pub audit_session : Session → Bool → Option Audit
  audit_session s verify_recorded =
      audit_with s (tampered_in s verify_recorded)
        (build_manifest s (tampered_in s verify_recorded))
