-- ===== src/Io/Comments.antt =====
-- `strip_json_comments` of tools/apm_suite/io.py. A text is a list of code points; the index of the
-- walk is the suffix that is still to be read, and `out` is what the calls return. Every round
-- consumes a character, so the length of the text is enough fuel (`Comments.Lines` proves it).
pub mod Lines
pub mod Clean
use dtd_server_apm.Common.{
  ℕ, zero, suc, Bool, true, false, ◌&&◌, List, [], ◌∷◌, ◌++◌, ◌==◌, if◌then◌else◌, Text, length,
  drop, newline, codes, ◌≡◌, refl,
}

abbrev pub quote : ℕ
quote = b'"'

abbrev pub backslash : ℕ
backslash = b'\\'

abbrev pub slash : ℕ
slash = b'/'

abbrev pub star : ℕ
star = b'*'

-- `text.startswith(d, i)` for one character `d`.
abbrev pub starts : ℕ → Text → Bool
starts d [] = false
starts d (c ∷ t) = c == d

-- The text from `text.find("\n", index)` on; nothing if there is no newline.
pub from_newline : Text → Text
from_newline [] = []
from_newline (c ∷ t) = let rest = from_newline t in if c == newline then c ∷ t else rest

-- The text behind `text.find("*/", index)`; nothing if the comment is not closed.
pub after_close : Text → Text
after_close [] = []
after_close (c ∷ t) =
    let rest = after_close t in if c == star && starts slash t then drop 1 t else rest

-- The newlines up to the end of the comment.
pub newlines_to_close : Text → Text
newlines_to_close [] = []
newlines_to_close (c ∷ t) =
    let rest = newlines_to_close t in
    if c == star && starts slash t then [] else if c == newline then newline ∷ rest else rest

pub walk : ℕ → Bool → Text → Text
unfolding from_newline after_close newlines_to_close
walk zero in_string t = []
walk (suc f) in_string [] = []
walk (suc f) true (c ∷ []) = c ∷ []
walk (suc f) true (c ∷ d ∷ t) =
    let escaped = c ∷ d ∷ walk f true t in
    let closed = c ∷ walk f false (d ∷ t) in
    let inside = c ∷ walk f true (d ∷ t) in
    if c == backslash then escaped else if c == quote then closed else inside
walk (suc f) false (c ∷ t) =
    let opened = c ∷ walk f true t in
    let line = walk f false (from_newline t) in
    let block = newlines_to_close (drop 1 t) ++ walk f false (after_close (drop 1 t)) in
    let plain = c ∷ walk f false t in
    if c == quote
    then opened
    else if c == slash && starts slash t
    then line
    else if c == slash && starts star t
    then block
    else plain

pub strip_json_comments : Text → Text
unfolding walk
strip_json_comments text = walk (length text) false text

keeps_url :
    strip_json_comments (codes "{\"u\": \"http://x\"} // y") ≡ codes "{\"u\": \"http://x\"} "
unfolding strip_json_comments
keeps_url = refl
