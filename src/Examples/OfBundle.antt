-- ===== src/Examples/OfBundle.antt =====
-- The theorems on tools/apm_suite/bundle.py at concrete inputs.
use dtd_server_apm.Examples.OfSession.{text_floats}
use dtd_server_apm.Common.{
  ℕ, ◌≡◌, ◌≢◌, refl, true, false, ◌&&◌, List, [], ◌∷◌, Option, none, some, Text, codes, leb, All,
  Lacks, ◌=?◌, nat_eq, list_eq, if◌then◌else◌, arith, split, keep, starts_with, lstrip, is_space,
  all, not, ◌==◌, and-true,
}
use dtd_server_apm.Common.Dict.{lookup, contains}
use dtd_server_apm.Common.Order.{text_lt}
use dtd_server_apm.Common.Sort.{sorted}
use dtd_server_apm.Io.Json.{Json, num, obj, end, field}
use dtd_server_apm.Io.Members.{member_is_safe, parts, is_absolute}
use dtd_server_apm.Session.Files.{regular, Session, read, stat}
use dtd_server_apm.Session.Manifest.{unexpected, Manifest, Platform}
use dtd_server_apm.Session.Review.{base_name, in_order}
use dtd_server_apm.Session.Audit.{audit_session}
use dtd_server_apm.Session.Audit.Integrity.{IsEntry}
use dtd_server_apm.Bundle.Scrub.{scrub, occurs, excluded_member}
use dtd_server_apm.Bundle.Redacted.{IsRedacted, scrub_exact}
use dtd_server_apm.Bundle.Lines.{
  Tools, hide_home, replace_from, is_server_line, has_shape, file_lines, scrub_line, scrub_lines,
  kept_line,
}
use dtd_server_apm.Bundle.Home.{IsPrivate, scrub_lines-IsPrivate}
use dtd_server_apm.Bundle.Export.{
  Members, Disk, written, export_bundle, close_export, walk_session, is_bundled, member_name,
  file_suffix, suffix_of, dotted, payload_of, text_payload, encode_lines, add_payload, add_member,
  stored_bytes, archive_of, bundle_manifest, manifest_of, decoded, layers_of, only_of,
}
use dtd_server_apm.Bundle.Kept.{recorded_by}
use dtd_server_apm.Bundle.Import.{Archive, extracted_all, import_bundle}
use dtd_server_apm.Bundle.Guarded.{IsAccepted, IsSafeImport, import_bundle-IsSafeImport}
use dtd_server_apm.Bundle.Trip.{files, reported_by, audited_by, ReadsBack, import-export}

abbrev launched : Json ℕ
launched = obj (
    field (codes "cmdline") (Json.str (codes "./server -secret")) (field (codes "pid") (num 7) end))

scrub_exact_example :
    IsRedacted (scrub launched) × (IsRedacted launched → scrub launched ≡ launched)
scrub_exact_example = scrub_exact launched

abbrev tools : Tools ℕ
tools = record {
  lower = λ s. s;
  is_digit = λ c. leb b'0' c && leb c b'9';
  loads = λ line. none;
  load_document = λ content. none;
  only_in_meta = λ content. none;
  dumps = λ v. codes "{}";
  dumps_indented = λ v. codes "{}";
  decode = λ content. content;
  encode = λ content. content;
  home = codes "/home/u";
}

home_filled : codes "/home/u" ≢ []
home_filled h = cc h

home_unmarked : Lacks b'~' (codes "/home/u")
home_unmarked = go (codes "/home/u") refl
  where
    go : (t : Text) → all (λ c. not (c == b'~')) t ≡ true → Lacks b'~' t
    go [] h = tt
    go (c ∷ t) h =
        let (p, q) = and-true (not (c == b'~')) (all (λ c. not (c == b'~')) t) h in
        (ground arith, go t q)

abbrev chat : List Text
chat = codes "in /home/u/a.so" ∷ codes "2026-08-23T10:00:00 402 INF hello" ∷ []

scrub_lines-IsPrivate_example : All (IsPrivate tools false) (scrub_lines tools false chat)
scrub_lines-IsPrivate_example =
    scrub_lines-IsPrivate tools home_filled home_unmarked refl false chat

abbrev session : Session
session = (codes "a.txt", regular (codes "x\n")) ∷ (codes "perf.data", regular (codes "raw")) ∷ []

abbrev platform_of : Option Manifest → Platform
platform_of known = record {
  sha256 = λ content. content;
  decode_manifest = λ text. if text =? codes "M" then known else none;
  encode_manifest = λ m. codes "M";
  schema_accepts = λ path text. true;
  decode_result = λ text. none;
  loads = λ text. none;
  int = λ v. unexpected;
  floats = text_floats;
  is_stamp = λ text. false;
  is_in_range = λ start window. true;
}

abbrev described : Manifest
described =
    bundle_manifest (platform_of none) tools (λ path. false) session
      (recorded_by (platform_of none) tools (λ path. false)
        (walk_session (platform_of none) tools (λ path. false) (in_order session)))

abbrev platform : Platform
platform = platform_of (some described)

abbrev disk : Disk
disk = record { output = none; temp = none }

entries : All (IsEntry session) session
unfolding lookup member_is_safe contains parts is_absolute
entries = ((refl, refl), ((refl, refl), tt))

abbrev bundle : Members
bundle = (codes "a.txt", codes "x\n") ∷ (codes "manifest.json", codes "M") ∷ []

abbrev archive : Archive
archive = record {
  infos =
      record { filename = codes "a.txt"; file_size = 2 }
      ∷ record { filename = codes "manifest.json"; file_size = 1 }
      ∷ [];
  extracted = extracted_all (files bundle);
}

import_bundle-IsSafeImport_example :
    IsSafeImport platform
      (some archive)
      []
      (import_bundle platform (λ c. true) (codes "session_1") (some archive) []).0
      (import_bundle platform (λ c. true) (codes "session_1") (some archive) []).1
import_bundle-IsSafeImport_example =
    import_bundle-IsSafeImport platform (λ c. true) (codes "session_1") (some archive) []

accepted : IsAccepted platform archive []
unfolding member_is_safe contains parts is_absolute
accepted = record { few = omega arith; small = omega arith; safe = (refl, (refl, tt)) }

abbrev after : Disk
after = record { output = some bundle; temp = none }

exported : export_bundle platform tools (λ path. false) true session disk ≡ (written, after)
unfolding export_bundle close_export walk_session is_bundled excluded_member occurs member_name
    file_suffix suffix_of dotted base_name parts split keep contains lookup payload_of text_payload
    encode_lines scrub_lines scrub_line kept_line hide_home replace_from is_server_line has_shape
    lstrip is_space file_lines starts_with add_payload add_member stored_bytes archive_of in_order
    sorted text_lt
exported = refl

reads_back : ReadsBack platform tools (λ path. false) session
unfolding bundle_manifest manifest_of decoded read stat lookup layers_of only_of walk_session
reads_back = refl

import-export_example :
    reported_by (import_bundle platform (λ c. true) (codes "session_1") (some archive) []).0
    ≡ audited_by (audit_session platform (files bundle) false)
import-export_example =
    import-export platform tools (λ path. false) session disk after bundle (λ c. true)
      (codes "session_1") archive [] entries refl reads_back exported refl accepted refl
