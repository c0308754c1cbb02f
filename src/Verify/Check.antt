-- ===== src/Verify/Check.antt =====
-- `asignify_verify_file` of libasignify/verify.c.
use asignify.Base.{
  ℕ, ◌≡◌, refl, sym, ap, ◌∙◌, arith, ◌⊎◌, inl, inr, Bool-cases, true, false, not, ◌&&◌,
}
use asignify.Base.{
  Option, none, some, List, [], ◌∷◌, Bytes, All, ◌==◌, ==_iff, if◌then◌else◌, take, take_all,
  bytes_eq, bytes_eq_iff, bytes_eq_refl,
}
use asignify.Util.Errors.{Error}
use asignify.Util.Digest.{digest_len, Hashes, Descriptor, digest_fd}
use asignify.Util.Digest.Chunks.{
  concat, hash_of, digest_fd-contents, digest_fd-seekable, length-digest_fd,
}
use asignify.Util.Disk.{Node, Disk, xopen}
use asignify.Data.{FileDigest, File}
use asignify.Verify.Files.{FileTable, get_file}

-- What the function returns, with the error that it sets if it returns false.
pub data Verdict : Type 0 where
  accepted : Verdict
  rejected : Error → Verdict

-- The `while` over the digests.
unfoldable pub check_digests : Hashes → Descriptor → List FileDigest → Verdict
check_digests h fd [] = accepted
check_digests h fd (d ∷ ds) =
    let rest = check_digests h fd ds in
    elim (digest_fd h d.digest_type (some fd)) [
      | none ↦ rejected Error.size
      | some calc ↦
          if bytes_eq (take (digest_len d.digest_type) calc)
            (take (digest_len d.digest_type) d.digest)
          then rest
          else rejected Error.verify_digest
    ]

unfoldable pub check_node : Hashes → Node → File → Verdict
unfolding check_digests
check_node h n f =
    if not (f.size == 0) && not (f.size == n.st_size)
    then rejected Error.verify_size
    else check_digests h n.descriptor f.digests

check_opened : Hashes → Option Node → File → Verdict
unfolding check_node
check_opened h none f = rejected Error.file
check_opened h (some n) f = check_node h n f

-- The table of a context that has loaded no signature is none.
unfoldable pub verify_file : Hashes → Disk → Option FileTable → Bytes → Verdict
unfolding check_opened
verify_file h disk none name = rejected Error.misuse
verify_file h disk (some files) name = elim (get_file name files) [
  | none ↦ rejected Error.no_digest
  | some f ↦ check_opened h (xopen disk name) f
]

-- What is known of a file agrees with the file on the disk.
pub record Agrees (h : Hashes) (n : Node) (f : File) : Type 0 where
  pub size_is : (f.size ≡ 0) ⊎ (f.size ≡ n.st_size)
  pub digests_are :
      All
        (λ d.
          hash_of h d.digest_type (concat n.descriptor.reads)
          ≡ some (take (digest_len d.digest_type) d.digest))
        f.digests

check_digests-accepted :
    (h : Hashes) (fd : Descriptor) (ds : List FileDigest)
    → check_digests h fd ds ≡ accepted
    → All
        (λ d.
          hash_of h d.digest_type (concat fd.reads)
          ≡ some (take (digest_len d.digest_type) d.digest))
        ds
unfolding check_digests
check_digests-accepted h fd [] e = tt
check_digests-accepted h fd (d ∷ ds) e =
    go (digest_fd h d.digest_type (some fd)) refl (check_digests-accepted h fd ds)
  where
    go :
        (o : Option Bytes)
        → digest_fd h d.digest_type (some fd) ≡ o
        → (check_digests h fd ds ≡ accepted
            → All
                (λ d.
                  hash_of h d.digest_type (concat fd.reads)
                  ≡ some (take (digest_len d.digest_type) d.digest))
                ds)
        → All
            (λ d.
              hash_of h d.digest_type (concat fd.reads)
              ≡ some (take (digest_len d.digest_type) d.digest))
            (d ∷ ds)
    go none c later = let bad = rw (c, check_digests) at e in cc
    go (some calc) c later =
        let len = digest_len d.digest_type in
        elim (Bool-cases (bytes_eq (take len calc) (take len d.digest))) [
          | inl same ↦ (
            digest_fd-contents h d.digest_type fd c
                ∙ ap some (
                    sym (take_all len calc (length-digest_fd h d.digest_type (some fd) c))
                    ∙ (bytes_eq_iff (take len calc) (take len d.digest)).0 same),
            later (rw (c, check_digests, same) at e),
          )
          | inr other ↦ let bad = rw (c, check_digests, other) at e in cc
        ]

check_digests_accepts :
    (h : Hashes) (fd : Descriptor) (ds : List FileDigest)
    → fd.seeks ≡ true
    → All
        (λ d.
          hash_of h d.digest_type (concat fd.reads)
          ≡ some (take (digest_len d.digest_type) d.digest))
        ds
    → check_digests h fd ds ≡ accepted
unfolding check_digests
check_digests_accepts h fd [] s a = refl
check_digests_accepts h fd (d ∷ ds) s a =
    let len = digest_len d.digest_type in
    let calc = take len d.digest in
    let c = digest_fd-seekable h d.digest_type fd s ∙ a.0 in
    let whole : take len calc ≡ calc =
      take_all len calc (length-digest_fd h d.digest_type (some fd) c) in
    rw (c, check_digests, whole, bytes_eq_refl calc) (check_digests_accepts h fd ds s a.1)

size_agrees : (a b : ℕ) → (not (a == 0) && not (a == b)) ≡ false → (a ≡ 0) ⊎ (a ≡ b)
size_agrees a b h = elim (Bool-cases (a == 0)) [
  | inl zero_size ↦ inl ((==_iff a 0).0 zero_size)
  | inr sized ↦ elim (Bool-cases (a == b)) [
    | inl same ↦ inr ((==_iff a b).0 same)
    | inr other ↦ let bad = rw (sized, other) at h in cc
  ]
]

check_node-Agrees : (h : Hashes) (n : Node) (f : File) → check_node h n f ≡ accepted → Agrees h n f
unfolding check_node
check_node-Agrees h n f e = elim (Bool-cases (not (f.size == 0) && not (f.size == n.st_size))) [
  | inl bad ↦ let no = rw (bad, check_node) at e in cc
  | inr good ↦ record {
    size_is = size_agrees f.size n.st_size good;
    digests_are = check_digests-accepted h n.descriptor f.digests (rw (good, check_node) at e);
  }
]

check_node_accepts :
    (h : Hashes) (n : Node) (f : File)
    → n.descriptor.seeks ≡ true
    → Agrees h n f
    → check_node h n f ≡ accepted
unfolding check_node
check_node_accepts h n f s a =
    rw (good, check_node) (check_digests_accepts h n.descriptor f.digests s a.digests_are)
  where
    good : (not (f.size == 0) && not (f.size == n.st_size)) ≡ false
    good = ground (arith, a.size_is)

-- A file is accepted only if the loaded signature has its name, it can be opened and is no
-- directory, its size is the one that was signed, if any was, and the hash of its contents is every
-- digest that was signed.
pub verify_file-Agrees :
    (h : Hashes) (disk : Disk) (files : FileTable) (name : Bytes)
    → verify_file h disk (some files) name ≡ accepted
    → (f : File) × (n : Node) × (get_file name files ≡ some f)
      × (xopen disk name ≡ some n)
      × Agrees h n f
unfolding verify_file check_opened
verify_file-Agrees h disk files name e = go (get_file name files) refl (xopen disk name) refl
  where
    go :
        (o : Option File)
        → get_file name files ≡ o
        → (m : Option Node) → xopen disk name ≡ m
        → (f : File) × (n : Node) × (get_file name files ≡ some f)
          × (xopen disk name ≡ some n)
          × Agrees h n f
    go none c m d = let bad = rw (c, verify_file) at e in cc
    go (some f) c none d = let bad = rw (c, verify_file, d) at e in cc
    go (some f) c (some n) d = (f, n, c, d, check_node-Agrees h n f (rw (c, verify_file, d) at e))

-- The other way round, a file that can be opened and read from its start, and agrees in this way
-- with the table, is accepted.
pub verify_file_accepts :
    (h : Hashes) (disk : Disk) (files : FileTable) (name : Bytes) (f : File) (n : Node)
    → get_file name files ≡ some f
    → xopen disk name ≡ some n
    → n.descriptor.seeks ≡ true
    → Agrees h n f
    → verify_file h disk (some files) name ≡ accepted
unfolding verify_file check_opened
verify_file_accepts h disk files name f n e d s a =
    rw (e, verify_file, d) (check_node_accepts h n f s a)
