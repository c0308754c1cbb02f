-- ===== src/Util/Disk.antt =====
-- `xopen` and `fstat` of libasignify/util.c and the C library: what the program sees of a disk that
-- does not change.
use asignify.Base.{ℕ, Bool, Option, none, some, Bytes, if◌then◌else◌}
use asignify.Util.Digest.{Descriptor}

-- A file that `open` has opened, and what `fstat` says of it.
pub record Node : Type 0 where
  pub is_dir : Bool
  pub st_size : ℕ
  pub descriptor : Descriptor

-- What `open` gives for a name, which for `-` is a copy of the standard input; none is -1.
abbrev pub Disk : Type 0
Disk = Bytes → Option Node

not_dir : Option Node → Option Node
not_dir none = none
not_dir (some n) = if n.is_dir then none else some n

unfoldable pub xopen : Disk → Bytes → Option Node
unfolding not_dir
xopen disk name = not_dir (disk name)
