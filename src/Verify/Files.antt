-- ===== src/Verify/Files.antt =====
-- The table `files` of a verify context, from file names to files. The vendored khash is an
-- association list here, each key the `fname` of its file, and `kh_put` never runs out of memory.
use asignify.Base.{Option, none, some, List, [], ◌∷◌, Bytes, bytes_eq}
use asignify.Base.{if◌then◌else◌}
use asignify.Data.{File}

abbrev pub FileTable : Type 0
FileTable = List File

-- `kh_get`.
unfoldable pub get_file : Bytes → FileTable → Option File
get_file name [] = none
get_file name (f ∷ fs) = if bytes_eq f.fname name then some f else get_file name fs

-- `kh_put` of a key that is not there, with its value.
unfoldable pub put_file : File → FileTable → FileTable
put_file f [] = f ∷ []
put_file f (g ∷ fs) = g ∷ put_file f fs

-- A write through a pointer to a file of the table.
unfoldable pub set_file : File → FileTable → FileTable
set_file f [] = []
set_file f (g ∷ fs) = if bytes_eq g.fname f.fname then f ∷ fs else g ∷ set_file f fs
