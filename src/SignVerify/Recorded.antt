-- ===== src/SignVerify/Recorded.antt =====
-- What `asignify_sign_add_file` records of a file agrees with the file on the disk.
use asignify.Base.{Bool, false, ◌||◌, bytes_eq, bytes_eq_refl}
use asignify.Base.{◌≤◌, ◌≡◌, refl, sym, ap, ◌∙◌, arith, inl, inr, true, Option, none, some}
use asignify.Base.{List, [], ◌∷◌, ◌++◌, Bytes, All, All-append, take_all}
use asignify.Util.Digest.{DigestType, digest_len, Hashes, digest_fd}
use asignify.Util.Digest.Chunks.{digest_fd-contents, digest_fd-IsBytes, length-digest_fd}
use asignify.Util.Disk.{Node, Disk, xopen}
use asignify.Data.{File}
use asignify.Verify.Digest.{uintmax_max}
use asignify.Verify.Machine.Reach.{IsName}
use asignify.Verify.Check.{Agrees}
use asignify.Sign.Files.{Added, added, not_added, add_digest, add_opened, add_file, add_files}
use asignify.SignVerify.Entry.{IsHashType, IsSignable}

-- What is opened can be read from its start, and has a size of 64 bits.
pub record IsDisk (disk : Disk) : Type 0 where
  pub seeks : (name : Bytes) (n : Node) → xopen disk name ≡ some n → n.descriptor.seeks ≡ true
  pub size_fits : (name : Bytes) (n : Node) → xopen disk name ≡ some n → n.st_size ≤ uintmax_max

-- The file of a context and the one on the disk.
pub record IsTrue (h : Hashes) (disk : Disk) (f : File) : Type 0 where
  pub node : Node
  pub opened : xopen disk f.fname ≡ some node
  pub agrees : Agrees h node f
  pub signable : IsSignable f

-- One file more, of that name.
record Grown (h : Hashes) (disk : Disk) (files : List File) (name : Bytes) (more : List File)
    : Type 0 where
  file : File
  more_is : more ≡ files ++ file ∷ []
  name_is : file.fname ≡ name
  true_file : IsTrue h disk file

module _ (h : Hashes) (disk : Disk) (files : List File) (name : Bytes) (graph : IsName name) where
  add_digest-Grown :
      (dt : DigestType) (n : Node) {more : List File}
      → IsHashType dt
      → xopen disk name ≡ some n
      → add_digest files name dt (digest_fd h dt (some n.descriptor)) ≡ added more
      → Grown h disk files name more
  unfolding add_digest
  add_digest-Grown dt n {more} kind o e = go (digest_fd h dt (some n.descriptor)) refl
    where
      go :
          (r : Option Bytes) → digest_fd h dt (some n.descriptor) ≡ r → Grown h disk files name more
      go none c = let bad = rw (c, add_digest) at e in cc
      go (some calc) c =
          let len = length-digest_fd h dt (some n.descriptor) c in
          record {
            file = record {
              fname = name;
              digests = record { digest_type = dt; digest = calc } ∷ [];
              size = 0;
            };
            more_is = (let d = rw (c, add_digest) at e in cc);
            name_is = refl;
            true_file = record {
              node = n;
              opened = o;
              agrees = record {
                size_is = inl refl;
                digests_are = (
                  digest_fd-contents h dt n.descriptor c
                      ∙ ap some (sym (take_all (digest_len dt) calc len)),
                  tt,
                );
              };
              signable = record {
                name = graph;
                recorded = record {
                  size_fits = omega arith;
                  digest = record {
                    kind = kind;
                    len = len;
                    bytes = digest_fd-IsBytes h dt n.descriptor c;
                  };
                };
              };
            };
          }

  add_opened-Grown :
      (dt : DigestType) (m : Option Node) {more : List File}
      → IsDisk disk
      → xopen disk name ≡ m
      → add_opened h m files name dt ≡ added more
      → Grown h disk files name more
  unfolding add_opened add_digest digest_fd
  add_opened-Grown dt none i o e = cc
  add_opened-Grown DigestType.sha512 (some n) i o e = add_digest-Grown DigestType.sha512 n tt o e
  add_opened-Grown DigestType.sha256 (some n) i o e = add_digest-Grown DigestType.sha256 n tt o e
  add_opened-Grown DigestType.blake2 (some n) i o e = add_digest-Grown DigestType.blake2 n tt o e
  add_opened-Grown DigestType.size (some n) i o e = record {
    file = record { fname = name; digests = []; size = n.st_size };
    more_is = cc;
    name_is = refl;
    true_file = record {
      node = n;
      opened = o;
      agrees = record { size_is = inr refl; digests_are = tt };
      signable = record {
        name = graph;
        recorded = record { size_fits = i.size_fits name n o; digest = tt };
      };
    };
  }
  add_opened-Grown DigestType.max (some n) i o e = cc

  add_file-Grown :
      (dt : DigestType) {more : List File}
      → IsDisk disk
      → add_file h disk files name dt ≡ added more
      → Grown h disk files name more
  unfolding add_file
  add_file-Grown DigestType.max i e = cc
  add_file-Grown dt i e = add_opened-Grown dt (xopen disk name) i refl e

-- A name that one of the files has.
abbrev pub named : Bytes → List File → Bool
named n [] = false
named n (f ∷ fs) = bytes_eq f.fname n || named n fs

named-append : (n : Bytes) (fs gs : List File) → named n (fs ++ gs) ≡ (named n fs || named n gs)
named-append n [] gs = refl
named-append n (f ∷ fs) gs = ground (arith, named-append n fs gs)

-- The files that are recorded are true, and the names that were asked for are among them.
pub record IsRecordOf (h : Hashes) (disk : Disk) (calls : List (Bytes × DigestType))
    (fs : List File) : Type 0 where
  pub files_true : All (IsTrue h disk) fs
  pub calls_named : All (λ c. named c.0 fs ≡ true) calls

Grown-named :
    {h : Hashes} {disk : Disk} {files more : List File} {name : Bytes}
    → Grown h disk files name more
    → (named name more ≡ true) × ((n : Bytes) → named n files ≡ true → named n more ≡ true)
Grown-named {files = files} {name = name} g = (
  rw (g.more_is)
      (named-append name files (g.file ∷ []) ∙ rw g.name_is (ground (arith, bytes_eq_refl name))),
  λ n t. rw g.more_is (named-append n files (g.file ∷ []) ∙ rw t refl),
)

add_files-kept :
    (h : Hashes) (disk : Disk) (calls : List (Bytes × DigestType)) (files fs : List File)
    → IsDisk disk
    → All (λ c. IsName c.0) calls
    → All (IsTrue h disk) files
    → add_files h disk files calls ≡ added fs
    → IsRecordOf h disk calls fs × ((n : Bytes) → named n files ≡ true → named n fs ≡ true)
unfolding add_files
add_files-kept h disk [] files fs i g t e =
    let same : files ≡ fs = cc in
    (record { files_true = rw same at t; calls_named = tt }, λ n k. rw same at k)
add_files-kept h disk (call ∷ calls) files fs i g t e =
    go (add_file h disk files call.0 call.1) refl
      (λ more. add_files-kept h disk calls more fs i g.1)
  where
    go :
        (r : Added)
        → add_file h disk files call.0 call.1 ≡ r
        → ((more : List File)
            → All (IsTrue h disk) more
            → add_files h disk more calls ≡ added fs
            → IsRecordOf h disk calls fs × ((n : Bytes) → named n more ≡ true → named n fs ≡ true))
        → IsRecordOf h disk (call ∷ calls) fs
          × ((n : Bytes) → named n files ≡ true → named n fs ≡ true)
    go (not_added x) c later = let bad = rw (c, add_files) at e in cc
    go (added more) c later =
        let w = add_file-Grown h disk files call.0 g.0 call.1 i c in
        let (this, others) = Grown-named w in
        let all_true =
          rw (← w.more_is) at
            (All-append (IsTrue h disk) files (w.file ∷ []) t (w.true_file, tt)) in
        let (r, kept) = later more all_true (rw (c, add_files) at e) in
        (
          record { files_true = r.files_true; calls_named = (kept call.0 this, r.calls_named) },
          λ n k. kept n (others n k),
        )

pub add_files-IsRecordOf :
    (h : Hashes) (disk : Disk) (calls : List (Bytes × DigestType)) {fs : List File}
    → IsDisk disk
    → All (λ c. IsName c.0) calls
    → add_files h disk [] calls ≡ added fs
    → IsRecordOf h disk calls fs
add_files-IsRecordOf h disk calls {fs} i g e = (add_files-kept h disk calls [] fs i g tt e).0
