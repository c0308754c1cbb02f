-- ===== src/SignVerify/Table.antt =====
-- Lookups in the table of files after the parser's updates.
use asignify.Base.{◌≡◌, refl, ap, arith, true, Option, none, some}
use asignify.Base.{[], ◌∷◌, Bytes, bytes_eq, bytes_eq_iff, if◌then◌else◌}
use asignify.Data.{File}
use asignify.Verify.Files.{FileTable, get_file, put_file, set_file}
use asignify.Verify.Machine.{enter_file, new_file}

pub bytes_eq_comm : (a b : Bytes) → bytes_eq a b ≡ bytes_eq b a
unfolding bytes_eq
bytes_eq_comm [] [] = refl
bytes_eq_comm [] (y ∷ b) = refl
bytes_eq_comm (x ∷ a) [] = refl
bytes_eq_comm (x ∷ a) (y ∷ b) = ground (arith, bytes_eq_comm a b)

-- A file that is found has the name that was looked for.
pub get_file-fname : (n : Bytes) (fs : FileTable) {f : File} → get_file n fs ≡ some f → f.fname ≡ n
unfolding get_file
get_file-fname n [] e = cc
get_file-fname n (g ∷ fs) {f} e =
    ground (arith, bytes_eq_iff g.fname n, get_file-fname n fs {f = f})

get_file-put_file :
    (n : Bytes) (f : File) (fs : FileTable)
    → get_file f.fname fs ≡ none
    → get_file n (put_file f fs) ≡ (if bytes_eq f.fname n then some f else get_file n fs)
unfolding get_file put_file
get_file-put_file n f [] e = refl
get_file-put_file n f (g ∷ fs) e = ground (
  arith,
  bytes_eq_iff f.fname n,
  bytes_eq_iff g.fname n,
  bytes_eq_iff g.fname f.fname,
  get_file-put_file n f fs,
)

get_file-set_file :
    (n : Bytes) (f : File) (fs : FileTable) {old : File}
    → get_file f.fname fs ≡ some old
    → get_file n (set_file f fs) ≡ (if bytes_eq f.fname n then some f else get_file n fs)
unfolding get_file set_file
get_file-set_file n f [] e = cc
get_file-set_file n f (g ∷ fs) {old} e = ground (
  arith,
  bytes_eq_iff f.fname n,
  bytes_eq_iff g.fname n,
  bytes_eq_iff g.fname f.fname,
  get_file-set_file n f fs {old = old},
)

-- The file that the table has, or a new one of the name.
abbrev pub found : Option File → Bytes → File
found none n = new_file n
found (some f) n = f

pub get_file-enter_file :
    (n m : Bytes) (fs : FileTable)
    → get_file n (enter_file m fs)
      ≡ (if bytes_eq m n then some (found (get_file m fs) m) else get_file n fs)
unfolding enter_file
get_file-enter_file n m fs =
    ground (arith, bytes_eq_iff m n, get_file-put_file n (new_file m) fs, agrees)
  where
    agrees : bytes_eq m n ≡ true → get_file m fs ≡ get_file n fs
    agrees h = ap (λ k. get_file k fs) ((bytes_eq_iff m n).0 h)

-- An entry that is recorded for `m` is what a lookup of `m` finds, and no other lookup changes.
pub get_file-set_file-enter_file :
    (n m : Bytes) (fs : FileTable) (g : File)
    → g.fname ≡ m
    → get_file n (set_file g (enter_file m fs)) ≡ (if bytes_eq m n then some g else get_file n fs)
get_file-set_file-enter_file n m fs g e = ground (
  arith,
  bytes_eq_iff g.fname n,
  bytes_eq_iff m n,
  bytes_eq_iff m g.fname,
  get_file-enter_file n m fs,
  get_file-enter_file g.fname m fs,
  get_file-set_file n g (enter_file m fs) {old = found (get_file m fs) m},
)
