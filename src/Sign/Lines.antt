-- ===== src/Sign/Lines.antt =====
-- The lines of digests that `asignify_sign_write_signature` (libasignify/sign.c) signs and writes.
use asignify.Base.{ℕ, ◌+◌, ◌≡◌, refl, not, Option, none, some, List, [], ◌∷◌, ◌++◌}
use asignify.Base.{Bytes, codes, leb, ◌==◌, if◌then◌else◌, length, take, c_string}
use asignify.Libc.Decimal.{decimal}
use asignify.Util.Digest.{digest_len, digest_name}
use asignify.Util.Hex.{bin2hex}
use asignify.Data.{FileDigest, File}

-- The ways out of the loop besides its end: the return with `ASIGNIFY_ERROR_SIZE`, a read through
-- the null pointer `digests`, and the `abort` of `bin2hex`.
pub data LineError : Type 0 where
  too_long null_digests aborts : LineError

pub data Result (A : Type 0) : Type 0 where
  ok : A → Result A
  err : LineError → Result A

infixl 5 ◌>>=◌
abbrev pub ◌>>=◌ : {A B : Type 0} → Result A → (A → Result B) → Result B
ok a >>= f = f a
err e >>= f = err e

-- `sizeof(line)`, with the `PATH_MAX` of Linux.
abbrev pub path_max : ℕ
path_max = 4096

abbrev pub line_size : ℕ
line_size = path_max + 256

-- What `snprintf` makes of the format.
abbrev pub line_text : Bytes → Bytes → Bytes → Bytes
line_text name fname value =
    name ++ (codes " (" ++ (fname ++ (codes ") = " ++ (value ++ codes "\n"))))

-- The test of `snprintf`'s result.
unfoldable pub print_line : Bytes → Bytes → Bytes → Result Bytes
print_line name fname value =
    let line = line_text name fname value in
    if leb line_size (length line) then err too_long else ok line

hex_of : Option Bytes → Result Bytes
hex_of none = err aborts
hex_of (some hex) = ok (c_string hex)

-- The buffer `hex` is given with one byte less than its size.
unfoldable pub digest_line : Bytes → List FileDigest → Result Bytes
unfolding print_line hex_of
digest_line fname [] = err null_digests
digest_line fname (d ∷ ds) = do
  hex ← hex_of (bin2hex 255 (take (digest_len d.digest_type) d.digest))
  print_line (digest_name d.digest_type) fname hex

unfoldable pub file_line : File → Result Bytes
unfolding digest_line
file_line f =
    if not (f.size == 0)
    then print_line (codes "SIZE") f.fname (decimal f.size)
    else digest_line f.fname f.digests

unfoldable pub file_lines : List File → Result Bytes
unfolding file_line
file_lines [] = ok []
file_lines (f ∷ fs) = do line ← file_line f; rest ← file_lines fs; ok (line ++ rest)

-- The text of several files is that of the first and that of the others.
pub file_lines-split :
    (f : File) (fs : List File) {text : Bytes}
    → file_lines (f ∷ fs) ≡ ok text
    → (line others : Bytes) × (line ++ others ≡ text)
      × (file_line f ≡ ok line)
      × (file_lines fs ≡ ok others)
unfolding file_lines
file_lines-split f fs {text} e = go (file_line f) refl (file_lines fs) refl
  where
    go :
        (a : Result Bytes)
        → file_line f ≡ a
        → (b : Result Bytes) → file_lines fs ≡ b
        → (line others : Bytes) × (line ++ others ≡ text)
          × (file_line f ≡ ok line)
          × (file_lines fs ≡ ok others)
    go (err x) c b d = let bad = rw (c, file_lines) at e in cc
    go (ok line) c (err x) d = let bad = rw (c, file_lines, d) at e in cc
    go (ok line) c (ok others) d =
        (line, others, (let both = rw (c, file_lines, d) at e in cc), c, d)
