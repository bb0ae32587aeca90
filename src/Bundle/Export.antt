-- ===== src/Bundle/Export.antt =====
-- `export_bundle`, `_stream_scrubbed_member`, `_copy_member`, `_stored_bytes` and `_bundle_manifest` of
-- tools/apm_suite/bundle.py. A file's content stands for its bytes. That writing the archive itself
-- fails (a full disk) is left out.
use dtd_server_apm.Common.{
  Bool, true, false, not, ◌&&◌, List, [], ◌∷◌, ◌++◌, Option, none, some, Text, codes, ◌=?◌, nat_eq,
  list_eq, if◌then◌else◌, length, newline, split,
}
use dtd_server_apm.Common.Dict.{contains}
use dtd_server_apm.Io.Json.{Json}
use dtd_server_apm.Io.Members.{parts}
use dtd_server_apm.Session.Files.{Node, regular, Session, read, is_file_node}
use dtd_server_apm.Session.Manifest.{Artifact, Manifest, Platform, manifest_name}
use dtd_server_apm.Session.Review.{base_name, in_order}
use dtd_server_apm.Bundle.Scrub.{scrub, excluded_member}
use dtd_server_apm.Bundle.Lines.{Tools, hide_home, file_lines, scrub_lines}

-- `path.suffix`, from the parts of the name between its dots.
unfoldable pub dotted : Text → Text
dotted [] = []
dotted (c ∷ s) = b'.' ∷ c ∷ s

unfoldable pub suffix_of : List Text → Text
unfolding base_name dotted
suffix_of [] = []
suffix_of (p ∷ []) = []
suffix_of ([] ∷ q ∷ []) = []
suffix_of ((c ∷ p) ∷ q ∷ []) = dotted q
suffix_of (p ∷ q ∷ r ∷ qs) = dotted (base_name (r ∷ qs))

abbrev pub text_suffixes : List Text
text_suffixes =
    codes ".txt"
    ∷ codes ".folded"
    ∷ codes ".html"
    ∷ codes ".script"
    ∷ codes ".md"
    ∷ codes ".log"
    ∷ codes ".out"
    ∷ codes ".svg"
    ∷ []

-- A member of an archive: its path and its bytes.
abbrev pub Members : Type 0
Members = List (Text × Text)

pub data Fault : Type 0 where
  no_session : Fault
  cannot_parse cannot_bundle : Text → Fault

-- What the walk has stored and recorded so far.
pub data Walked : Type 0 where
  fault : Fault → Walked
  walked : Members → List Artifact → Walked

-- What one file is stored as.
pub data Payload : Type 0 where
  refused : Fault → Payload
  stored : Text → Payload

-- The bundle's destination and the temporary file beside it.
pub record Disk : Type 0 where
  pub output : Option Members
  pub temp : Option Members

pub data Outcome : Type 0 where
  failed : Fault → Outcome
  written : Outcome

module _ {N : Type 0} (p : Platform) (tools : Tools N) (is_output : Text → Bool) where
  open p use {sha256, encode_manifest, decode_manifest}
  open tools use {lower, load_document, only_in_meta, dumps_indented, decode, encode, home}

  -- The bytes of kept lines: each with a line feed behind it.
  unfoldable pub encode_lines : List Text → Text
  encode_lines [] = []
  encode_lines (line ∷ lines) = encode line ++ newline ∷ encode_lines lines

  unfoldable pub json_payload : Text → Option (Json N) → Payload
  json_payload path none = refused (cannot_parse path)
  json_payload path (some v) =
      stored (encode (hide_home home (dumps_indented (scrub v)) ++ newline ∷ []))

  unfoldable pub text_payload : Bool → Text → Text
  unfolding encode_lines
  text_payload jsonl content = encode_lines (scrub_lines tools jsonl (file_lines (decode content)))

  -- One file by its suffix. A file that cannot be opened names itself in the error.
  unfoldable pub payload_of : Text → Text → Node → Payload
  unfolding json_payload text_payload
  payload_of path suffix (regular content) =
      if suffix =? codes ".json"
      then json_payload path (load_document content)
      else if suffix =? codes ".jsonl"
      then stored (text_payload true content)
      else if contains text_suffixes suffix
      then stored (text_payload false content)
      else stored content
  payload_of path suffix node =
      if suffix =? codes ".json" then refused (cannot_parse path) else refused (cannot_bundle path)

  unfoldable pub member_name : Text → Text
  unfolding base_name
  member_name path = base_name (parts path)

  unfoldable pub file_suffix : Text → Text
  unfolding member_name suffix_of
  file_suffix path = suffix_of (split (member_name path) b'.')

  -- The guard of the walk: what it does not skip.
  unfoldable pub is_bundled : Text → Node → Bool
  unfolding member_name file_suffix
  is_bundled path node =
      is_file_node (some node)
      && (not (excluded_member lower (member_name path))
          && (not (file_suffix path =? codes ".err") && not (is_output path)))

  -- `_stored_bytes`: a record of the bytes as they are stored.
  unfoldable pub stored_bytes : Text → Text → Artifact
  stored_bytes path payload = record {
    path = path;
    bytes = length payload;
    sha256 = sha256 payload;
  }

  unfoldable pub add_member : Text → Text → Walked → Walked
  unfolding stored_bytes
  add_member path payload (fault f) = fault f
  add_member path payload (walked members recorded) =
      walked ((path, payload) ∷ members) (stored_bytes path payload ∷ recorded)

  unfoldable pub add_payload : Text → Payload → Walked → Walked
  unfolding add_member
  add_payload path (refused f) rest = fault f
  add_payload path (stored payload) rest = add_member path payload rest

  -- The walk over the files in order.
  unfoldable pub walk_session : Session → Walked
  unfolding is_bundled add_payload payload_of
  walk_session [] = walked [] []
  walk_session ((path, node) ∷ s) =
      let rest = walk_session s in
      if is_bundled path node
      then add_payload path (payload_of path (file_suffix path) node) rest
      else rest

  -- The layers that the capture was asked for, by `meta.json`.
  unfoldable pub layers_of : Option Text → List Text
  layers_of none = split (codes "all") b','
  layers_of (some []) = split (codes "all") b','
  layers_of (some (c ∷ only)) = split (c ∷ only) b','

  unfoldable pub only_of : Option Text → Option Text
  only_of none = none
  only_of (some text) = only_in_meta text

  -- `_bundle_manifest`: the session's own manifest or one from `meta.json`, with the bundle's artifacts.
  unfoldable pub manifest_of : Session → List Artifact → Option Manifest → Manifest
  unfolding layers_of only_of
  manifest_of s artifacts (some m) = record m { artifacts = artifacts }
  manifest_of s artifacts none = record {
    requested_layers = layers_of (only_of (read s (codes "meta.json")));
    collectors = [];
    artifacts = artifacts;
    warnings = [];
    errors = [];
  }

  unfoldable pub decoded : Option Text → Option Manifest
  decoded none = none
  decoded (some text) = decode_manifest text

  unfoldable pub bundle_manifest : Session → List Artifact → Manifest
  unfolding manifest_of decoded
  bundle_manifest s artifacts = manifest_of s artifacts (decoded (read s manifest_name))

  -- The finished archive: the members, and behind them the manifest that describes them.
  unfoldable pub archive_of : Session → Members → List Artifact → Members
  unfolding bundle_manifest
  archive_of s members recorded =
      members ++ (manifest_name, encode_manifest (bundle_manifest s recorded)) ∷ []

  -- The rename onto the destination comes last, and the temporary file goes on every way out.
  unfoldable pub close_export : Session → Disk → Walked → Outcome × Disk
  unfolding archive_of
  close_export s disk (fault f) = (failed f, record disk { temp = none })
  close_export s disk (walked members recorded) =
      (written, record { output = some (archive_of s members recorded); temp = none })

  unfoldable pub export_bundle : Bool → Session → Disk → Outcome × Disk
  unfolding walk_session close_export in_order
  export_bundle is_dir s disk =
      if not is_dir
      then (failed no_session, disk)
      else close_export s disk (walk_session (in_order s))
