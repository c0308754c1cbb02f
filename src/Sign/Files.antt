-- ===== src/Sign/Files.antt =====
-- `asignify_sign_add_file` of libasignify/sign.c.
use asignify.Base.{Option, none, some, List, [], ◌∷◌, ◌++◌, Bytes}
use asignify.Util.Errors.{Error}
use asignify.Util.Digest.{DigestType, Hashes, digest_fd}
use asignify.Util.Disk.{Node, Disk, xopen}
use asignify.Data.{File}

-- The files of the context, or the error of a return of false, which leaves them as they are.
pub data Added : Type 0 where
  added : List File → Added
  not_added : Error → Added

unfoldable pub add_digest : List File → Bytes → DigestType → Option Bytes → Added
add_digest files name dt none = not_added Error.size
add_digest files name dt (some calc) = added (
    files
    ++ record { fname = name; digests = record { digest_type = dt; digest = calc } ∷ []; size = 0 }
      ∷ [])

unfoldable pub add_opened : Hashes → Option Node → List File → Bytes → DigestType → Added
unfolding add_digest
add_opened h none files name dt = not_added Error.file
add_opened h (some n) files name DigestType.size =
    added (files ++ record { fname = name; digests = []; size = n.st_size } ∷ [])
add_opened h (some n) files name dt = add_digest files name dt (digest_fd h dt (some n.descriptor))

unfoldable pub add_file : Hashes → Disk → List File → Bytes → DigestType → Added
unfolding add_opened
add_file h disk files name DigestType.max = not_added Error.misuse
add_file h disk files name dt = add_opened h (xopen disk name) files name dt

-- Several calls, one after the other, all of which succeed.
unfoldable pub add_files : Hashes → Disk → List File → List (Bytes × DigestType) → Added
add_files h disk files [] = added files
add_files h disk files (call ∷ calls) = elim (add_file h disk files call.0 call.1) [
  | added more ↦ add_files h disk more calls
  | not_added e ↦ not_added e
]
