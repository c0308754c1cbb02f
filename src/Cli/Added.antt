-- ===== src/Cli/Added.antt =====
-- What the loops of `sign` over files and digests make of a context when every file can be added.
use asignify.Base.{ℕ, ◌+◌, ◌≤◌, ◌<◌, ◌≡◌, refl, arith, Bool, true, false, Option, List, [], ◌∷◌}
use asignify.Base.{Bytes, All, if◌then◌else◌, length}
use asignify.Util.Errors.{Error}
use asignify.Util.Digest.{DigestType, Hashes}
use asignify.Util.Disk.{Disk}
use asignify.Data.{File, PrivateData}
use asignify.Sign.Files.{Added, added, not_added, add_file, add_files}
use asignify.Cli.{Ret}
use asignify.Cli.Sign.{Adding, add_one, add_digests, add_all}

-- The calls for a file: each of the digests, and the size.
unfoldable pub name_calls :
    Bool → List DigestType → Bytes → List (Bytes × DigestType) → List (Bytes × DigestType)
name_calls no_size [] name rest = if no_size then rest else (name, DigestType.size) ∷ rest
name_calls no_size (dt ∷ dts) name rest = (name, dt) ∷ name_calls no_size dts name rest

unfoldable pub calls_of : Bool → List DigestType → List Bytes → List (Bytes × DigestType)
unfolding name_calls
calls_of no_size dts [] = []
calls_of no_size dts (name ∷ names) = name_calls no_size dts name (calls_of no_size dts names)

All-name_calls :
    (P : Bytes → Type 0) (no_size : Bool) (dts : List DigestType) (name : Bytes)
    (rest : List (Bytes × DigestType))
    → P name
    → All (λ c. P c.0) rest
    → All (λ c. P c.0) (name_calls no_size dts name rest)
unfolding name_calls
All-name_calls P true [] name rest p a = a
All-name_calls P false [] name rest p a = (p, a)
All-name_calls P no_size (dt ∷ dts) name rest p a = (p, All-name_calls P no_size dts name rest p a)

pub All-calls_of :
    (P : Bytes → Type 0) (no_size : Bool) (dts : List DigestType) (names : List Bytes)
    → All P names
    → All (λ c. P c.0) (calls_of no_size dts names)
unfolding calls_of
All-calls_of P no_size dts [] a = tt
All-calls_of P no_size dts (name ∷ names) a =
    All-name_calls P no_size dts name (calls_of no_size dts names) a.0
      (All-calls_of P no_size dts names a.1)

All-after_name :
    (P : Bytes → Type 0) (no_size : Bool) (dts : List DigestType) (name : Bytes)
    (rest : List (Bytes × DigestType))
    → All (λ c. P c.0) (name_calls no_size dts name rest)
    → All (λ c. P c.0) rest
unfolding name_calls
All-after_name P true [] name rest a = a
All-after_name P false [] name rest a = a.1
All-after_name P no_size (dt ∷ dts) name rest a = All-after_name P no_size dts name rest a.1

-- What holds of the file of every call holds of every file, since there is a digest.
pub All-of_calls :
    (P : Bytes → Type 0) (no_size : Bool) (dt : DigestType) (dts : List DigestType)
    (names : List Bytes)
    → All (λ c. P c.0) (calls_of no_size (dt ∷ dts) names)
    → All P names
unfolding calls_of name_calls
All-of_calls P no_size dt dts [] a = tt
All-of_calls P no_size dt dts (name ∷ names) a = (
  a.0,
  All-of_calls P no_size dt dts names
      (All-after_name P no_size dts name (calls_of no_size (dt ∷ dts) names) a.1),
)

module _ (h : Hashes) (disk : Disk) (key : Option PrivateData) (err : Option Error) (r : Ret) where
  abbrev pub adding : List File → ℕ → Adding
  adding files k = record {
    ctx = record { privk = key; files = files; error = err };
    ret = r;
    count = k;
  }

  first_call :
      (files out : List File) (name : Bytes) (dt : DigestType) (rest : List (Bytes × DigestType))
      → add_files h disk files ((name, dt) ∷ rest) ≡ added out
      → (mid : List File) × (add_file h disk files name dt ≡ added mid)
        × (add_files h disk mid rest ≡ added out)
  unfolding add_files
  first_call files out name dt rest e = go (add_file h disk files name dt) refl
    where
      go :
          (o : Added)
          → add_file h disk files name dt ≡ o
          → (mid : List File) × (add_file h disk files name dt ≡ added mid)
            × (add_files h disk mid rest ≡ added out)
      go (added mid) s = (mid, s, rw (s, add_files) at e)
      go (not_added x) s = let no = rw (s, add_files) at e in cc

  add_one-added :
      (counts : Bool) (files mid : List File) (k : ℕ) (name : Bytes) (dt : DigestType)
      → add_file h disk files name dt ≡ added mid
      → add_one h disk counts (adding files k) name dt ≡ adding mid (if counts then k + 1 else k)
  unfolding add_one
  add_one-added counts files mid k name dt e = rw (e, add_one) refl

  -- The state after the calls that a number of files stand for, with a count that has grown by
  -- `more` at the least, and the calls that are left.
  abbrev Goes : Adding → ℕ → List File → List (Bytes × DigestType) → Type 0
  Goes a least out rest =
      (mid : List File) × (m : ℕ) × (a ≡ adding mid m)
      × (least ≤ m)
      × (add_files h disk mid rest ≡ added out)

  add_sizes :
      (no_size : Bool) (files out : List File) (k : ℕ) (name : Bytes)
      (rest : List (Bytes × DigestType))
      → add_files h disk files (name_calls no_size [] name rest) ≡ added out
      → Goes
          (if no_size
            then adding files k
            else add_one h disk false (adding files k) name DigestType.size)
          k
          out
          rest
  unfolding name_calls
  add_sizes true files out k name rest e = (files, k, refl, omega arith, e)
  add_sizes false files out k name rest e =
      let (mid, one, left) = first_call files out name DigestType.size rest e in
      (mid, k, add_one-added false files mid k name DigestType.size one, omega arith, left)

  add_name :
      (no_size : Bool) (dts : List DigestType) (files out : List File) (k : ℕ) (name : Bytes)
      (rest : List (Bytes × DigestType))
      → add_files h disk files (name_calls no_size dts name rest) ≡ added out
      → Goes
          (let b = add_digests h disk (adding files k) name dts in
            if no_size then b else add_one h disk false b name DigestType.size)
          (k + length dts)
          out
          rest
  unfolding add_digests name_calls
  add_name no_size [] files out k name rest e =
      let (mid, m, is, le, left) = add_sizes no_size files out k name rest e in
      (mid, m, is, omega arith, left)
  add_name no_size (dt ∷ dts) files out k name rest e =
      let (mid, one, left) = first_call files out name dt (name_calls no_size dts name rest) e in
      let (end, m, is, le, more) = add_name no_size dts mid out (k + 1) name rest left in
      (end, m, rw (add_digests, add_one-added true files mid k name dt one) is, omega arith, more)

  -- If all the calls for the files succeed one after the other, then the loops end with the files that
  -- they give, with nothing else of the context changed and no failure noted.
  pub add_all-added :
      (no_size : Bool) (dts : List DigestType) (names : List Bytes) (files out : List File) (k : ℕ)
      → add_files h disk files (calls_of no_size dts names) ≡ added out
      → (m : ℕ) × (k ≤ m) × (add_all h disk no_size dts (adding files k) names ≡ adding out m)
  unfolding add_all calls_of add_files
  add_all-added no_size dts [] files out k e = (k, omega arith, cc)
  add_all-added no_size dts (name ∷ names) files out k e =
      let (mid, m, is, le, left) =
        add_name no_size dts files out k name (calls_of no_size dts names) e in
      let (n, more, ends) = add_all-added no_size dts names mid out m left in
      (n, omega arith, rw (add_all, is) ends)

  -- With a file and a digest, at least one digest is counted.
  pub add_all_counts :
      (no_size : Bool) (dt : DigestType) (dts : List DigestType) (name : Bytes) (names : List Bytes)
      (files out : List File) (k : ℕ)
      → add_files h disk files (calls_of no_size (dt ∷ dts) (name ∷ names)) ≡ added out
      → (m : ℕ) × (k < m)
        × (add_all h disk no_size (dt ∷ dts) (adding files k) (name ∷ names) ≡ adding out m)
  unfolding add_all calls_of
  add_all_counts no_size dt dts name names files out k e =
      let (mid, m, is, le, left) =
        add_name no_size (dt ∷ dts) files out k name (calls_of no_size (dt ∷ dts) names) e in
      let (n, more, ends) = add_all-added no_size (dt ∷ dts) names mid out m left in
      (n, omega arith, rw (add_all, is) ends)
