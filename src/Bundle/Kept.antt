-- ===== src/Bundle/Kept.antt =====
-- What an export stores.
use dtd_server_apm.Common.{
  ◌≡◌, refl, ap, ◌∙◌, Bool, true, false, not, List, [], ◌∷◌, some, Text, map, All, ◌=?◌, nat_eq,
  list_eq, if_cases, and-true, codes,
}
use dtd_server_apm.Common.Dict.{lookup}
use dtd_server_apm.Common.Sort.{All-sorted}
use dtd_server_apm.Io.Members.{member_is_safe}
use dtd_server_apm.Session.Files.{Node, Session, is_file_node}
use dtd_server_apm.Session.Manifest.{Artifact, Platform}
use dtd_server_apm.Session.Review.{in_order}
use dtd_server_apm.Session.Audit.Integrity.{IsEntry}
use dtd_server_apm.Bundle.Scrub.{excluded_member}
use dtd_server_apm.Bundle.Lines.{Tools}
use dtd_server_apm.Bundle.Export.{
  Members, Walked, fault, walked, Payload, refused, stored, Disk, Outcome, failed, written,
  payload_of, member_name, file_suffix, is_bundled, stored_bytes, add_member, add_payload,
  walk_session, archive_of, close_export, export_bundle,
}

module _ {N : Type 0} (p : Platform) (tools : Tools N) (is_output : Text → Bool) where
  open tools use {lower}

  -- A member is what one regular file of the session is stored as; the file is none that stays on the
  -- host: its name is not excluded, it is no error log, and it is not the bundle itself.
  pub record IsMember (s : Session) (m : Text × Text) : Type 0 where
    pub node : Node
    pub found : lookup m.0 s ≡ some node
    pub safe : member_is_safe m.0 ≡ true
    pub is_regular : is_file_node (some node) ≡ true
    pub allowed : excluded_member lower (member_name p tools is_output m.0) ≡ false
    pub no_error_log : (file_suffix p tools is_output m.0 =? codes ".err") ≡ false
    pub no_output : is_output m.0 ≡ false
    pub payload :
        payload_of p tools is_output m.0 (file_suffix p tools is_output m.0) node ≡ stored m.1

  abbrev pub AreMembers : Session → Walked → Type 0
  AreMembers s (fault f) = Unit
  AreMembers s (walked members recorded) =
      All (IsMember s) members
      × (recorded ≡ map (λ m. stored_bytes p tools is_output m.0 m.1) members)

  not-false : (b : Bool) → not b ≡ true → b ≡ false
  not-false true h = cc
  not-false false h = refl

  is_bundled-IsMember :
      (s : Session) (path payload : Text) (node : Node)
      → IsEntry s (path, node)
      → is_bundled p tools is_output path node ≡ true
      → payload_of p tools is_output path (file_suffix p tools is_output path) node ≡ stored payload
      → IsMember s (path, payload)
  unfolding is_bundled
  is_bundled-IsMember s path payload node h b e =
      let (file, rest) = and-true (is_file_node (some node)) _ b in
      let (allowed, rest') =
        and-true (not (excluded_member lower (member_name p tools is_output path))) _ rest in
      let (log, output) =
        and-true (not (file_suffix p tools is_output path =? codes ".err")) _ rest' in
      record {
        node = node;
        found = h.0;
        safe = h.1;
        is_regular = file;
        allowed = not-false _ allowed;
        no_error_log = not-false _ log;
        no_output = not-false _ output;
        payload = e;
      }

  add_payload-AreMembers :
      (s : Session) (path : Text) (node : Node) (o : Payload) (rest : Walked)
      → IsEntry s (path, node)
      → is_bundled p tools is_output path node ≡ true
      → payload_of p tools is_output path (file_suffix p tools is_output path) node ≡ o
      → AreMembers s rest
      → AreMembers s (add_payload p tools is_output path o rest)
  unfolding add_payload add_member
  add_payload-AreMembers s path node (refused f) rest h b e k = tt
  add_payload-AreMembers s path node (stored payload) (fault f) h b e k = tt
  add_payload-AreMembers s path node (stored payload) (walked members recorded) h b e k =
      ((is_bundled-IsMember s path payload node h b e, k.0), rw k.1 refl)

  walk_session-AreMembers :
      (whole s : Session)
      → All (IsEntry whole) s
      → AreMembers whole (walk_session p tools is_output s)
  unfolding walk_session
  walk_session-AreMembers whole [] h = (tt, refl)
  walk_session-AreMembers whole ((path, node) ∷ s) h =
      if_cases (AreMembers whole) (is_bundled p tools is_output path node)
        (add_payload p tools is_output path
          (payload_of p tools is_output path (file_suffix p tools is_output path) node)
          (walk_session p tools is_output s))
        (walk_session p tools is_output s)
        (λ b.
          add_payload-AreMembers whole path node
            (payload_of p tools is_output path (file_suffix p tools is_output path) node)
            (walk_session p tools is_output s) h.0 b refl (walk_session-AreMembers whole s h.1))
        (λ _. walk_session-AreMembers whole s h.1)

  -- What a walk recorded.
  abbrev pub recorded_by : Walked → List Artifact
  recorded_by (fault f) = []
  recorded_by (walked members recorded) = recorded

  -- The archive of a written bundle: members of the session, and behind them the manifest of the bundle,
  -- which records these members as they are stored.
  pub record IsBundle (s : Session) (bundle : Members) : Type 0 where
    pub members : Members
    pub each : All (IsMember s) members
    pub by_walk :
        recorded_by (walk_session p tools is_output (in_order s))
        ≡ map (λ m. stored_bytes p tools is_output m.0 m.1) members
    pub whole :
        bundle
        ≡ archive_of p tools is_output s members
            (map (λ m. stored_bytes p tools is_output m.0 m.1) members)

  -- What an export leaves at the destination.
  abbrev pub IsExport : Session → Disk → Outcome → Disk → Type 0
  IsExport s before (failed f) after = after.output ≡ before.output
  IsExport s before written after =
      (bundle : Members) × (after.output ≡ some bundle) × IsBundle s bundle

  close_export-IsExport :
      (s : Session) (disk : Disk) (w : Walked)
      → AreMembers s w
      → walk_session p tools is_output (in_order s) ≡ w
      → IsExport s disk
          (close_export p tools is_output s disk w).0
          (close_export p tools is_output s disk w).1
  unfolding close_export
  close_export-IsExport s disk (fault f) h e = refl
  close_export-IsExport s disk (walked members recorded) h e = (
    archive_of p tools is_output s members recorded,
    refl,
    record { members = members; each = h.0; by_walk = ap recorded_by e ∙ h.1; whole = rw h.1 refl },
  )

  pub export_bundle-IsExport :
      (is_dir : Bool) (s : Session) (disk : Disk)
      → All (IsEntry s) s
      → IsExport s disk
          (export_bundle p tools is_output is_dir s disk).0
          (export_bundle p tools is_output is_dir s disk).1
  unfolding export_bundle
  export_bundle-IsExport false s disk h = refl
  export_bundle-IsExport true s disk h =
      close_export-IsExport s disk (walk_session p tools is_output (in_order s))
        (walk_session-AreMembers s (in_order s) (unfold in_order in All-sorted (IsEntry s) _ s h))
        refl
