-- ===== src/Io/Members.antt =====
-- `member_is_safe` of tools/apm_suite/io.py: the guard for every untrusted relative path.
use dtd_server_apm.Common.{
  ℕ, ◌≡◌, refl, Bool, true, false, not, ◌&&◌, ◌||◌, List, [], ◌∷◌, ◌++◌, leb, ◌==◌, if◌then◌else◌,
  Text, any, keep, split, codes, ◌=?◌, arith, append_assoc, ◌≢◌, nat_eq, list_eq, append-nil, map,
}
use dtd_server_apm.Common.Dict.{contains}
use dtd_server_apm.Io.Json.Surrogates.{is_surrogate}

-- `_INVISIBLE_RE` of one character.
unfoldable pub is_invisible : ℕ → Bool
is_invisible c =
    leb c 0x1f
    || leb 0x7f c && leb c 0x9f
    || leb 0x200b c && leb c 0x200d
    || leb 0x202a c && leb c 0x202e
    || c == 0x2060
    || leb 0x2066 c && leb c 0x2069
    || c == 0xfeff

abbrev pub slash : ℕ
slash = b'/'

abbrev pub is_part : Text → Bool
is_part [] = false
is_part s = not (s =? codes ".")

-- `PurePosixPath(name)`: absolute or not, and its parts behind the root, empty ones and "." dropped.
unfoldable pub is_absolute : Text → Bool
is_absolute [] = false
is_absolute (c ∷ s) = c == slash

unfoldable pub parts : Text → List Text
unfolding split keep
parts name = keep is_part (split name slash)

abbrev pub is_empty {ℓ} : {A : Type ℓ} → List A → Bool
is_empty [] = true
is_empty (x ∷ xs) = false

-- `name.encode("utf-8")` raises for a lone surrogate. An absolute path has its root as a part.
unfoldable pub member_is_safe : Text → Bool
unfolding is_surrogate is_invisible
member_is_safe name =
    if any is_surrogate name
    then false
    else if any is_invisible name
    then false
    else if is_empty (parts name) && not (is_absolute name)
    then false
    else not (is_absolute name) && not (contains (parts name) (codes ".."))

-- How a POSIX file system walks a path from a directory, given as its parts from the root:
-- ".." steps up, and an absolute path starts again at the root.
pub drop_last : List Text → List Text
drop_last [] = []
drop_last (p ∷ []) = []
drop_last (p ∷ q ∷ ps) = p ∷ drop_last (q ∷ ps)

pub walk_parts : List Text → List Text → List Text
walk_parts dir [] = dir
walk_parts dir (p ∷ ps) = walk_parts (if p =? codes ".." then drop_last dir else dir ++ p ∷ []) ps

pub resolved_parts : List Text → Text → List Text
resolved_parts dir name = walk_parts (if is_absolute name then [] else dir) (parts name)

walk_parts-append :
    (dir ps : List Text) → contains ps (codes "..") ≡ false → walk_parts dir ps ≡ dir ++ ps
unfolding walk_parts contains
walk_parts-append dir [] h = rw append-nil
walk_parts-append dir (p ∷ ps) h =
    ground (arith, walk_parts-append (dir ++ p ∷ []) ps, append_assoc dir (p ∷ []) ps)

not-empty {ℓ} : {A : Type ℓ} (xs : List A) → is_empty xs ≡ false → xs ≢ []
not-empty [] h = cc
not-empty (x ∷ xs) h = cc

-- A safe name, walked from any directory, ends strictly below that directory: the walk only appends
-- parts to it, at least one. Nor does the name hold a surrogate or an invisible character.
pub member_is_safe_inside :
    (dir : List Text) (name : Text)
    → member_is_safe name ≡ true
    → (resolved_parts dir name ≡ dir ++ parts name)
      × (parts name ≢ [])
      × (any is_surrogate name ≡ false)
      × (any is_invisible name ≡ false)
unfolding member_is_safe resolved_parts
member_is_safe_inside dir name h =
    ground (arith, walk_parts-append dir (parts name), not-empty (parts name))

accepts_collector_path : member_is_safe (codes "cpu/perf/./stacks.folded") ≡ true
unfolding member_is_safe contains parts is_absolute
accepts_collector_path = refl

rejects_escapes :
    map member_is_safe (codes "a/../../b" ∷ codes "/etc/passwd" ∷ codes "." ∷ codes "a\nb" ∷ [])
    ≡ false ∷ false ∷ false ∷ false ∷ []
unfolding member_is_safe contains parts is_absolute
rejects_escapes = refl
