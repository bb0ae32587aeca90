-- ===== src/Session/Verify.antt =====
-- `verify_recorded_hashes`, `missing_required_documents`, `_validate_documents` and `verify_session`
-- of tools/apm_suite/session.py.
pub mod Exact
use dtd_server_apm.Common.{
  ℕ, ◌+◌, ◌≡◌, Bool, true, false, not, ◌&&◌, ◌||◌, List, [], ◌∷◌, ◌++◌, Option, none, some, Text,
  codes, ◌=?◌, nat_eq, list_eq, if◌then◌else◌, length, map, ◌==◌, any, split, strip, starts_with,
}
use mathlib.Core.List.{reverse}
use dtd_server_apm.Common.Dict.{lookup, insert, contains}
use dtd_server_apm.Collectors.{specs, find_spec, requested, layer_requested}
use dtd_server_apm.Common.Sort.{sorted}
use dtd_server_apm.Io.Members.{member_is_safe, parts}
use dtd_server_apm.Session.Files.{
  Node, regular, locked, directory, symlink, Session, is_file, regular_file_size, read, write, stat,
}
use dtd_server_apm.Common.Order.{text_lt}
use dtd_server_apm.Session.Manifest.{
  Finding, missing_or_empty, escapes, recorded_but_missing, size_changed, hash_differs, unreadable,
  baseline_lost, schema_unreadable, schema_failed, invalid_result, Artifact, Status, ok, skipped,
  failed, unavailable, interrupted, Collector, Warning, no_evidence, capture_warnings, frame_spikes,
  unknown_start, Manifest, manifest_name, required, validated_documents, Platform,
}

module _ (p : Platform) where
  open p use {sha256, decode_manifest, encode_manifest, schema_accepts}

  -- What is found of a recorded artifact: its size first, then its hash.
  pub verify_node : Artifact → Option Node → List Finding
  verify_node a (some (regular content)) =
      if not (length content == a.bytes)
      then size_changed a.path a.bytes (length content) ∷ []
      else if not (sha256 content =? a.sha256)
      then hash_differs a.path ∷ []
      else []
  verify_node a (some (locked n)) =
      if not (n == a.bytes) then size_changed a.path a.bytes n ∷ [] else unreadable a.path ∷ []
  verify_node a _ = recorded_but_missing a.path ∷ []

  -- One round of the loop over the recorded artifacts.
  pub verify_artifact : Session → Artifact → List Finding
  unfolding verify_node
  verify_artifact s a =
      if not (member_is_safe a.path) then escapes a.path ∷ [] else verify_node a (stat s a.path)

  pub verify_artifacts : Session → List Artifact → List Finding
  unfolding verify_artifact
  verify_artifacts s [] = []
  verify_artifacts s (a ∷ as') = verify_artifact s a ++ verify_artifacts s as'

  -- What the recorded manifest says: nothing if there is none.
  unfoldable pub verify_recorded_hashes : Session → List Finding
  unfolding verify_artifacts
  verify_recorded_hashes s =
      if not (is_file s manifest_name) then [] else elim (read s manifest_name) [
        | none ↦ baseline_lost ∷ []
        | some text ↦ elim (decode_manifest text) [
          | none ↦ baseline_lost ∷ []
          | some recorded ↦ verify_artifacts s recorded.artifacts
        ]
      ]

  -- A missing or zero size.
  pub no_size : Option ℕ → Bool
  no_size none = true
  no_size (some n) = n == 0

  pub missing_documents : Session → List Text → List Finding
  unfolding no_size
  missing_documents s [] = []
  missing_documents s (rel ∷ rels) =
      (if no_size (regular_file_size s rel) then missing_or_empty rel ∷ [] else [])
      ++ missing_documents s rels

  unfoldable pub missing_required_documents : Session → List Finding
  unfolding missing_documents
  missing_required_documents s = missing_documents s required

  pub validate_document : Session → Text → List Finding
  validate_document s rel = if not (is_file s rel) then [] else elim (read s rel) [
    | none ↦ schema_unreadable rel ∷ []
    | some text ↦ if schema_accepts rel text then [] else schema_failed rel ∷ []
  ]

  pub validate_documents_in : Session → List Text → List Finding
  unfolding validate_document
  validate_documents_in s [] = []
  validate_documents_in s (rel ∷ rels) = validate_document s rel ++ validate_documents_in s rels

  unfoldable pub validate_documents : Session → List Finding
  unfolding validate_documents_in
  validate_documents s = validate_documents_in s validated_documents

  pub verify_session : Session → List Finding
  unfolding missing_required_documents verify_recorded_hashes validate_documents
  verify_session s =
      missing_required_documents s ++ verify_recorded_hashes s ++ validate_documents s
