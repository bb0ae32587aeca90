-- ===== src/Bundle/Trip.antt =====
-- An export and an import of the bundle it wrote.
use mathlib.Core.Path.{subst}
use dtd_server_apm.Common.{
  ℕ, ◌≡◌, refl, ap, sym, ◌∙◌, Bool, true, false, ◌||◌, List, [], ◌∷◌, ◌++◌, Option, none, some,
  Text, map, All, All-imp, arith, ◌=?◌, nat_eq, list_eq, text_eq, length, sum, keep, ltb, if_cases,
  Bool-cases, inl, inr,
}
use dtd_server_apm.Common.Dict.{contains, lookup}
use dtd_server_apm.Io.Members.{parts, member_is_safe}
use dtd_server_apm.Session.Files.{regular, Session, read, stat, followed}
use dtd_server_apm.Session.Manifest.{Artifact, Finding, Manifest, Platform, manifest_name}
use dtd_server_apm.Session.Review.{base_name, in_order}
use dtd_server_apm.Session.Verify.{verify_recorded_hashes}
use dtd_server_apm.Session.Verify.Exact.{IsIntact, recorded_hashes, verify_artifacts_complete}
use dtd_server_apm.Session.Audit.{Audit, audit_session, tampered_in}
use dtd_server_apm.Session.Audit.Integrity.{IsEntry}
use dtd_server_apm.Bundle.Scrub.{excluded_member}
use dtd_server_apm.Bundle.Lines.{Tools}
use dtd_server_apm.Bundle.Export.{
  Members, Disk, written, member_name, stored_bytes, archive_of, bundle_manifest, walk_session,
  manifest_of, export_bundle,
}
use dtd_server_apm.Bundle.Kept.{recorded_by, IsMember, IsBundle, IsExport, export_bundle-IsExport}
use dtd_server_apm.Bundle.Import.{
  Archive, Extraction, extracted_all, SessionStore, Imported, rejected, restored, escaped,
  import_bundle, import_opened, import_members, import_safe, extract_into, restore, unsafe_in,
  max_import_members, max_import_uncompressed_bytes,
}
use dtd_server_apm.Bundle.Guarded.{IsAccepted}

-- The files that the members of an archive become.
unfoldable pub files : Members → Session
files [] = []
files ((path, payload) ∷ members) = (path, regular payload) ∷ files members

paths : Members → List Text
paths members = map (λ m. m.0) members

all-present : (members : Members) → All (λ m. contains (paths members) m.0 ≡ true) members
unfolding paths contains
all-present [] = tt
all-present ((path, payload) ∷ members) = (
  rw ((text_eq.beq_iff path path).1 refl) refl,
  All-imp (λ m h. later path m.0 (paths members) h) members (all-present members),
)
  where
    later : (q k : Text) (ks : List Text) → contains ks k ≡ true → (q =? k || contains ks k) ≡ true
    later q k ks h = ground (arith, h)

module _ {N : Type 0} (p : Platform) (tools : Tools N) (is_output : Text → Bool) (s : Session) where
  open tools use {lower}

  -- Two members with one path are one file, stored the same way.
  same_payload :
      (path x y : Text)
      → IsMember p tools is_output s (path, x)
      → IsMember p tools is_output s (path, y)
      → x ≡ y
  same_payload path x y h k =
      let same : h.node ≡ k.node = cc (h.found, k.found) in cc (h.payload, k.payload, same)

  lookup-files :
      (members rest : Members) (path payload : Text)
      → All (IsMember p tools is_output s) members
      → IsMember p tools is_output s (path, payload)
      → contains (paths members) path ≡ true
      → lookup path (files (members ++ rest)) ≡ some (regular payload)
  unfolding lookup files paths contains
  lookup-files [] rest path payload h k present = cc present
  lookup-files ((q, x) ∷ members) rest path payload h k present = elim (Bool-cases (q =? path)) [
    | inl e ↦
        let eq : q ≡ path = (text_eq.beq_iff q path).0 e in
        let same : x ≡ payload =
          same_payload path x payload (subst (λ r. IsMember p tools is_output s (r, x)) eq h.0) k in
        rw (e, same) refl
    | inr e ↦ rw e (lookup-files members rest path payload h.1 k (ground (arith, present, e)))
  ]

  manifest_excluded :
      (x : Text)
      → lower manifest_name ≡ manifest_name
      → ¬ IsMember p tools is_output s (manifest_name, x)
  unfolding excluded_member member_name base_name parts contains
  manifest_excluded x l h = cc (h.allowed, l)

  lookup-manifest :
      (members : Members) (text : Text)
      → lower manifest_name ≡ manifest_name
      → All (IsMember p tools is_output s) members
      → lookup manifest_name (files (members ++ (manifest_name, text) ∷ [])) ≡ some (regular text)
  unfolding lookup files
  lookup-manifest [] text l h = refl
  lookup-manifest ((q, x) ∷ members) text l h = elim (Bool-cases (q =? manifest_name)) [
    | inl e ↦
        let eq : q ≡ manifest_name = (text_eq.beq_iff q manifest_name).0 e in
        absurd (manifest_excluded x l (subst (λ r. IsMember p tools is_output s (r, x)) eq h.0))
    | inr e ↦ rw e (lookup-manifest members text l h.1)
  ]

  stored-IsIntact :
      (members rest : Members) (path payload : Text)
      → All (IsMember p tools is_output s) members
      → IsMember p tools is_output s (path, payload)
      → contains (paths members) path ≡ true
      → IsIntact p (files (members ++ rest)) (stored_bytes p tools is_output path payload)
  unfolding stored_bytes
  stored-IsIntact members rest path payload h k present = record {
    safe = k.safe;
    content = payload;
    found = unfold stat in ap followed (lookup-files members rest path payload h k present);
    size = refl;
    hash = refl;
  }

  recorded-IsIntact :
      (whole rest members : Members)
      → All (IsMember p tools is_output s) whole
      → All (IsMember p tools is_output s) members
      → All (λ m. contains (paths whole) m.0 ≡ true) members
      → All
          (IsIntact p (files (whole ++ rest)))
          (map (λ m. stored_bytes p tools is_output m.0 m.1) members)
  recorded-IsIntact whole rest [] h k present = tt
  recorded-IsIntact whole rest (m ∷ members) h k present = (
    stored-IsIntact whole rest m.0 m.1 h k.0 present.0,
    recorded-IsIntact whole rest members h k.1 present.1,
  )

  manifest_of-artifacts :
      (artifacts : List Artifact) (o : Option Manifest)
      → (manifest_of p tools is_output s artifacts o).artifacts ≡ artifacts
  unfolding manifest_of
  manifest_of-artifacts artifacts none = refl
  manifest_of-artifacts artifacts (some m) = refl

  bundle_manifest-artifacts :
      (artifacts : List Artifact)
      → (bundle_manifest p tools is_output s artifacts).artifacts ≡ artifacts
  unfolding bundle_manifest
  bundle_manifest-artifacts artifacts = manifest_of-artifacts artifacts _

  -- The manifest that the export writes reads back.
  abbrev pub ReadsBack : Type 0
  ReadsBack =
      p.decode_manifest (
        p.encode_manifest (
          bundle_manifest p tools is_output s
            (recorded_by p tools is_output (walk_session p tools is_output (in_order s)))))
      ≡ some (
          bundle_manifest p tools is_output s
            (recorded_by p tools is_output (walk_session p tools is_output (in_order s))))

  -- The files of a bundle verify against the manifest in it.
  bundle-verifies :
      (bundle : Members)
      → IsBundle p tools is_output s bundle
      → lower manifest_name ≡ manifest_name
      → ReadsBack
      → verify_recorded_hashes p (files bundle) ≡ []
  bundle-verifies bundle b l back =
      let recorded : List Artifact = map (λ m. stored_bytes p tools is_output m.0 m.1) b.members in
      let m : Manifest = bundle_manifest p tools is_output s recorded in
      let text : Text = p.encode_manifest m in
      let whole : Members = b.members ++ (manifest_name, text) ∷ [] in
      let same : bundle ≡ whole = b.whole ∙ (unfold archive_of in refl) in
      rw same (
        recorded_hashes p (files whole) m (record {
          text = text;
          reads = unfold read in unfold stat in rw (lookup-manifest b.members text l b.each) refl;
          decodes =
              subst
                (λ r.
                  p.decode_manifest (p.encode_manifest (bundle_manifest p tools is_output s r))
                  ≡ some (bundle_manifest p tools is_output s r))
                b.by_walk back;
        })
        ∙ verify_artifacts_complete p (files whole) m.artifacts (
            subst (All (IsIntact p (files whole))) (sym (bundle_manifest-artifacts recorded)) (
              recorded-IsIntact b.members ((manifest_name, text) ∷ []) b.members b.each b.each
                (all-present b.members))))

-- What an import or an audit reports: findings, nothing because it was refused, or an exception.
pub data Report : Type 0 where
  refused : Report
  raised_error : Report
  found : List Finding → Report

abbrev pub reported_by : Imported → Report
reported_by (rejected e) = refused
reported_by (restored r) = found r.findings
reported_by escaped = raised_error

abbrev pub audited_by : Option Audit → Report
audited_by none = raised_error
audited_by (some a) = found a.manifest.errors

unsafe_in-safe :
    (names : List Text) → All (λ m. member_is_safe m ≡ true) names → unsafe_in names ≡ []
unfolding unsafe_in keep
unsafe_in-safe [] h = refl
unsafe_in-safe (m ∷ ms) h = rw h.0 (unsafe_in-safe ms h.1)

module _ (p : Platform) (archive : Archive) (store : SessionStore) where
  restore-report :
      (target : Text) (s : Session) (o : Option Audit) (claimed : SessionStore)
      → reported_by (restore p target s o claimed).0 ≡ audited_by o
  unfolding restore
  restore-report target s none claimed = refl
  restore-report target s (some a) claimed = refl

  audit-report :
      (s : Session)
      → verify_recorded_hashes p s ≡ []
      → audit_session p s true ≡ audit_session p s false
  unfolding audit_session tampered_in
  audit-report s v = rw v refl

  extract_into-findings :
      (target : Text) (o : Extraction) (s : Session) (claimed : SessionStore)
      → o ≡ extracted_all s
      → verify_recorded_hashes p s ≡ []
      → reported_by (extract_into p target o claimed).0 ≡ audited_by (audit_session p s false)
  unfolding extract_into
  extract_into-findings target o s claimed e v =
      rw e (
        restore-report target s (audit_session p s true) claimed ∙ ap audited_by (audit-report s v))

  import_opened-findings :
      (stem : Text) (s : Session)
      → IsAccepted p archive store
      → archive.extracted ≡ extracted_all s
      → verify_recorded_hashes p s ≡ []
      → reported_by (import_opened p stem archive store).0 ≡ audited_by (audit_session p s false)
  unfolding import_opened
  import_opened-findings stem s a e v =
      if_cases (λ o. reported_by o.0 ≡ audited_by (audit_session p s false))
        (ltb max_import_members (length archive.infos)
          || ltb max_import_uncompressed_bytes (sum (map (λ i. i.file_size) archive.infos)))
        _ (import_members p (unsafe_in (map (λ i. i.filename) archive.infos)) stem archive store)
        (λ k. absurd (ground (arith, a.few, a.small, k)))
        (λ _.
          rw (unsafe_in-safe _ a.safe) (
            unfold import_members import_safe in extract_into-findings _ archive.extracted s _ e v))

-- An exported bundle comes back: where the archive that was written is within the limits and extracts
-- to its members, the import is not refused and ends as an audit of them without the tamper check does:
-- it reports the same findings, none of which is a changed or missing member, or the audit raises and so
-- does the import. The paths of the session name one entry each and are safe, "manifest.json" is its own
-- lower case, and the manifest that the export writes reads back.
pub import-export :
    {N : Type 0} (p : Platform) (tools : Tools N) (is_output : Text → Bool) (s : Session)
    (disk after : Disk) (bundle : Members) (is_alnum : ℕ → Bool) (name : Text) (archive : Archive)
    (store : SessionStore)
    → All (IsEntry s) s
    → tools.lower manifest_name ≡ manifest_name
    → ReadsBack p tools is_output s
    → export_bundle p tools is_output true s disk ≡ (written, after)
    → after.output ≡ some bundle
    → IsAccepted p archive store
    → archive.extracted ≡ extracted_all (files bundle)
    → reported_by (import_bundle p is_alnum name (some archive) store).0
      ≡ audited_by (audit_session p (files bundle) false)
unfolding import_bundle
import-export p tools is_output s disk after bundle is_alnum name archive store h l back e o a x =
    import_opened-findings p archive store _ (files bundle) a x (
      bundle-verifies p tools is_output s bundle
        (written_bundle (
          subst (λ r. IsExport p tools is_output s disk r.0 r.1) e
            (export_bundle-IsExport p tools is_output true s disk h)))
        l back)
  where
    written_bundle :
        (b : Members) × (after.output ≡ some b) × IsBundle p tools is_output s b
        → IsBundle p tools is_output s bundle
    written_bundle (b, same, is_bundle) =
        let eq : b ≡ bundle = cc (same, o) in subst (IsBundle p tools is_output s) eq is_bundle
