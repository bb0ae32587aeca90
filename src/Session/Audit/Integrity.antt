-- ===== src/Session/Audit/Integrity.antt =====
-- What an audit does to the recorded baseline.
use dtd_server_apm.Common.{◌≡◌, ◌≢◌, true, false, List, [], some, Text, nat_eq, list_eq}
use dtd_server_apm.Common.Dict.{lookup}
use dtd_server_apm.Io.Members.{member_is_safe}
use dtd_server_apm.Session.Files.{Node, Session}
use dtd_server_apm.Session.Manifest.{Finding, Manifest, Platform}
use dtd_server_apm.Session.Verify.{verify_recorded_hashes}
use dtd_server_apm.Session.Audit.{Audit}

-- An entry of a session: its path names it, and only it, and is safe.
abbrev pub IsEntry : Session → Text × Node → Type 0
IsEntry s e = (lookup e.0 s ≡ some e.1) × (member_is_safe e.0 ≡ true)

module _ (p : Platform) where
  -- The baseline that an audit leaves: the old one where the check found something, else one that
  -- verifies.
  pub data IsBaseline (s : Session) (tampered : List Finding) (a : Audit) : Type 0 where
    old : tampered ≢ [] → a.session ≡ s → a.valid ≡ false → IsBaseline s tampered a
    new : tampered ≡ [] → verify_recorded_hashes p a.session ≡ [] → IsBaseline s tampered a
