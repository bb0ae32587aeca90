-- ===== src/Session/Verify/Exact.antt =====
-- What a clean verification means.
use dtd_server_apm.Common.{
  ◌≡◌, ◌↔◌, refl, sym, ◌∙◌, true, List, [], ◌∷◌, ◌++◌, Option, none, some, Text, length, All, arith,
  nat_eq, list_eq, text_eq, ==_iff, Bool-cases, inl, inr,
}
use dtd_server_apm.Io.Members.{member_is_safe}
use dtd_server_apm.Session.Files.{
  Node, regular, locked, directory, symlink, Session, is_file, read, read_node, is_file_node, stat,
}
use dtd_server_apm.Session.Manifest.{Artifact, Manifest, Platform, manifest_name}
use dtd_server_apm.Session.Verify.{
  verify_node, verify_artifact, verify_artifacts, verify_recorded_hashes,
}

module _ (p : Platform) where
  -- A recorded artifact: its path is safe and leads to a file that can be read, perhaps by a link, with
  -- the recorded size and hash.
  pub record IsIntact (s : Session) (a : Artifact) : Type 0 where
    pub safe : member_is_safe a.path ≡ true
    pub content : Text
    pub found : stat s a.path ≡ some (regular content)
    pub size : length content ≡ a.bytes
    pub hash : p.sha256 content ≡ a.sha256

  IsIntact-node :
      (s : Session) (a : Artifact) (o : Option Node)
      → member_is_safe a.path ≡ true
      → stat s a.path ≡ o
      → verify_node p a o ≡ []
      → IsIntact s a
  unfolding verify_node
  IsIntact-node s a (some (regular content)) safe e h = record {
    safe = safe;
    content = content;
    found = e;
    size = ground arith;
    hash = ground (arith, text_eq.beq_iff (p.sha256 content) a.sha256);
  }
  IsIntact-node s a (some (locked n)) safe e h = absurd (ground arith)
  IsIntact-node s a (some (directory n)) safe e h = absurd (cc h)
  IsIntact-node s a (some (symlink t)) safe e h = absurd (cc h)
  IsIntact-node s a none safe e h = absurd (cc h)

  verify_artifact-IsIntact :
      (s : Session) (a : Artifact) → verify_artifact p s a ≡ [] → IsIntact s a
  verify_artifact-IsIntact s a h = elim (Bool-cases (member_is_safe a.path)) [
    | inl e ↦ IsIntact-node s a (stat s a.path) e refl (unfold verify_artifact in ground (arith, h))
    | inr e ↦ absurd (unfold verify_artifact in ground (arith, h))
  ]

  IsIntact-verify_artifact :
      (s : Session) (a : Artifact) → IsIntact s a → verify_artifact p s a ≡ []
  unfolding verify_artifact
  IsIntact-verify_artifact s a h = ground (
    arith,
    h.found,
    h.safe,
    h.size,
    ==_iff (length h.content) a.bytes,
    text_eq.beq_iff (p.sha256 h.content) a.sha256,
  )

  append-nil_parts {ℓ} : {A : Type ℓ} (xs ys : List A) → xs ++ ys ≡ [] → (xs ≡ []) × (ys ≡ [])
  append-nil_parts [] ys h = (refl, h)
  append-nil_parts (x ∷ xs) ys h = cc

  verify_artifacts_sound :
      (s : Session) (as' : List Artifact) → verify_artifacts p s as' ≡ [] → All (IsIntact s) as'
  unfolding verify_artifacts
  verify_artifacts_sound s [] h = tt
  verify_artifacts_sound s (a ∷ as') h =
      let (x, y) = append-nil_parts (verify_artifact p s a) (verify_artifacts p s as') h in
      (verify_artifact-IsIntact s a x, verify_artifacts_sound s as' y)

  pub verify_artifacts_complete :
      (s : Session) (as' : List Artifact) → All (IsIntact s) as' → verify_artifacts p s as' ≡ []
  unfolding verify_artifacts
  verify_artifacts_complete s [] h = refl
  verify_artifacts_complete s (a ∷ as') h =
      rw (IsIntact-verify_artifact s a h.0, verify_artifacts_complete s as' h.1)

  -- The session's `manifest.json` can be read and decodes as `m`.
  pub record Records (s : Session) (m : Manifest) : Type 0 where
    pub text : Text
    pub reads : read s manifest_name ≡ some text
    pub decodes : p.decode_manifest text ≡ some m

  is_file_of_read :
      (s : Session) (path text : Text) → read s path ≡ some text → is_file s path ≡ true
  unfolding read is_file
  is_file_of_read s path text h = go (stat s path) h
    where
      go : (o : Option Node) → read_node o ≡ some text → is_file_node o ≡ true
      go (some (regular c)) h = refl
      go (some (locked n)) h = cc
      go (some (directory n)) h = cc
      go (some (symlink t)) h = cc
      go none h = cc

  pub recorded_hashes :
      (s : Session) (m : Manifest)
      → Records s m
      → verify_recorded_hashes p s ≡ verify_artifacts p s m.artifacts
  recorded_hashes s m r =
      unfold verify_recorded_hashes in
      rw (is_file_of_read s manifest_name r.text r.reads, r.reads, r.decodes)

  -- Where a manifest is recorded, the tamper check finds nothing exactly if the path of every recorded
  -- artifact is safe and leads to a file that can be read, be it by a link, and that has the recorded
  -- size and the recorded hash.
  pub verify_recorded_hashes_exact :
      (s : Session) (m : Manifest)
      → Records s m
      → (verify_recorded_hashes p s ≡ []) ↔ All (IsIntact s) m.artifacts
  verify_recorded_hashes_exact s m r = (
    λ h. verify_artifacts_sound s m.artifacts (sym (recorded_hashes s m r) ∙ h),
    λ h. recorded_hashes s m r ∙ verify_artifacts_complete s m.artifacts h,
  )
