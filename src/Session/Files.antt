-- ===== src/Session/Files.antt =====
-- A session directory as the readers of tools/apm_suite see it: its nodes by path, and the calls that ask
-- for one. `regular_file_size` is that of tools/apm_suite/io.py.
use dtd_server_apm.Common.{
  ℕ, Bool, true, false, List, Option, none, some, Text, nat_eq, list_eq, length,
}
use dtd_server_apm.Common.Dict.{lookup, insert}

-- What a link leads to: a file, a file that cannot be opened, a directory or nothing.
pub data Target : Type 0 where
  to_file : Text → Target
  to_locked : ℕ → Target
  to_directory : ℕ → Target
  nowhere : Target

-- What a path names. `locked` is a regular file that cannot be opened; its size is still known, and so is
-- that of a directory.
pub data Node : Type 0 where
  regular : Text → Node
  locked : ℕ → Node
  directory : ℕ → Node
  symlink : Target → Node

-- The nodes below a session by their relative paths. Directories are not reached through links.
abbrev pub Session : Type 0
Session = List (Text × Node)

abbrev pub target_node : Target → Option Node
target_node (to_file c) = some (regular c)
target_node (to_locked n) = some (locked n)
target_node (to_directory n) = some (directory n)
target_node nowhere = none

-- What `path.stat()` sees of a node: it follows a link.
abbrev pub followed : Option Node → Option Node
followed none = none
followed (some (regular c)) = some (regular c)
followed (some (locked n)) = some (locked n)
followed (some (directory n)) = some (directory n)
followed (some (symlink t)) = target_node t

unfoldable pub stat : Session → Text → Option Node
stat s path = followed (lookup path s)

-- `path.is_file()`.
abbrev pub is_file_node : Option Node → Bool
is_file_node (some (regular c)) = true
is_file_node (some (locked n)) = true
is_file_node _ = false

unfoldable pub is_file : Session → Text → Bool
is_file s path = is_file_node (stat s path)

abbrev pub size_of_node : Option Node → Option ℕ
size_of_node (some (regular c)) = some (length c)
size_of_node (some (locked n)) = some n
size_of_node _ = none

-- `regular_file_size(path)`: none for what is missing or no regular file.
unfoldable pub regular_file_size : Session → Text → Option ℕ
regular_file_size s path = size_of_node (stat s path)

-- `size_or_zero(path)`, also of a directory.
abbrev pub any_size : Option Node → ℕ
any_size none = 0
any_size (some (regular c)) = length c
any_size (some (locked n)) = n
any_size (some (directory n)) = n
any_size (some (symlink t)) = 0

pub size_or_zero : Session → Text → ℕ
unfolding stat
size_or_zero s path = any_size (stat s path)

abbrev pub read_node : Option Node → Option Text
read_node (some (regular c)) = some c
read_node _ = none

-- Opening and reading a file; `none` is an `OSError`.
unfoldable pub read : Session → Text → Option Text
read s path = read_node (stat s path)

-- `atomic_text(path, content)`.
unfoldable pub write : Session → Text → Text → Session
write s path content = insert path (regular content) s
