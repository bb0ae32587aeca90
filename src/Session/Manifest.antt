-- ===== src/Session/Manifest.antt =====
-- The manifest of tools/apm_suite/models.py as the audit of tools/apm_suite/session.py fills it, the
-- tables that the audit reads, and what it takes from other software. A finding or a warning is a
-- constructor in place of the message text. Of the manifest, the target and the time stamps are left
-- out: they are copied from `meta.json` and nothing reads them back.
use dtd_server_apm.Common.{ℕ, Bool, List, [], ◌∷◌, Option, Text, codes, nat_eq, list_eq}
use dtd_server_apm.Io.Json.{Json}
use dtd_server_apm.Models.Numbers.{Floats}

-- Python's integers: a number, or minus one more than a number.
pub data ℤ : Type 0 where
  pos : ℕ → ℤ
  negsuc : ℕ → ℤ

-- What `int(value)` ends in; an `unexpected` exception is none of a `ValueError`.
pub data Conversion : Type 0 where
  converted : ℤ → Conversion
  value_error unexpected : Conversion

pub data Finding : Type 0 where
  missing_or_empty : Text → Finding
  escapes : Text → Finding
  recorded_but_missing : Text → Finding
  size_changed : Text → ℕ → ℕ → Finding
  hash_differs : Text → Finding
  unreadable : Text → Finding
  baseline_lost : Finding
  schema_unreadable : Text → Finding
  schema_failed : Text → Finding
  invalid_result : Text → Finding

pub record Artifact : Type 0 where
  pub path : Text
  pub bytes : ℕ
  pub sha256 : Text

pub data Status : Type 0 where
  ok skipped failed unavailable interrupted : Status

pub record Collector : Type 0 where
  pub name : Text
  pub layer : Text
  pub status : Status

pub data Warning : Type 0 where
  no_evidence : Text → Status → Warning
  capture_warnings : Warning
  frame_spikes : ℤ → Warning
  unknown_start : Warning

-- `ManifestV2`.
pub record Manifest : Type 0 where
  pub requested_layers : List Text
  pub collectors : List Collector
  pub artifacts : List Artifact
  pub warnings : List Warning
  pub errors : List Finding

-- What the audit reads of `meta.json`: `only` if it is a string, the truth of `no_app`, whether
-- `parse_stamp` takes the start time, and whether the manifest's target and its end can be computed.
pub record Meta : Type 0 where
  pub only : Option Text
  pub no_app : Bool
  pub has_start : Bool
  pub has_target : Bool
  pub has_end : Bool

abbrev pub manifest_name : Text
manifest_name = codes "manifest.json"

abbrev pub required : List Text
required =
    codes "meta.json"
    ∷ codes "summary.json"
    ∷ codes "health.json"
    ∷ codes "events.json"
    ∷ codes "report.html"
    ∷ codes "dashboard.html"
    ∷ []

abbrev pub validated_documents : List Text
validated_documents =
    codes "meta.json"
    ∷ codes "summary.json"
    ∷ codes "health.json"
    ∷ codes "events.json"
    ∷ codes "app/apm_app.json"
    ∷ []

-- What the audit takes from hashlib, json and pydantic, and from `meta.json` and the collector
-- results by way of these.
pub record Platform : Type 0 where
  -- `file_sha256` of a file's content
  pub sha256 : Text → Text
  -- `ManifestV2.model_validate(load_json(path))` of a document's text, and the text that
  -- `atomic_json` writes
  pub decode_manifest : Text → Option Manifest
  pub encode_manifest : Manifest → Text
  -- the schema of the document at a path accepts its text
  pub schema_accepts : Text → Text → Bool
  -- `CollectorResult.model_validate(load_json(path))`
  pub decode_result : Text → Option Collector
  -- `json.loads`, none where it raises; a number is kept as the text of its literal
  pub loads : Text → Option (Json Text)
  -- `int(value)`
  pub int : Json Text → Conversion
  -- floats, as their texts
  pub floats : Floats Text Text
  -- `datetime.fromisoformat` takes a text; and the stamp of a text plus so many seconds is in range
  pub is_stamp : Text → Bool
  pub is_in_range : Text → Text → Bool
