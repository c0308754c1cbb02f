-- ===== src/SignVerify/Accepts.antt =====
-- The files of a sign context are accepted by a verify context that has read their lines.
use asignify.Base.{◌≡◌, refl, ◌∙◌, true, false, Option, none, some, ◌==◌, inl, inr, Bool-cases}
use asignify.Base.{List, [], ◌∷◌, Bytes, All, bytes_eq, bytes_eq_iff, take}
use asignify.Util.Digest.{DigestType, digest_len, Hashes}
use asignify.Util.Digest.Chunks.{hash_of, concat}
use asignify.Util.Disk.{Node, Disk, xopen}
use asignify.Data.{FileDigest, File}
use asignify.Verify.Files.{FileTable, get_file}
use asignify.Verify.Machine.{parse_files, new_file}
use asignify.Verify.Machine.Reach.{IsName}
use asignify.Verify.Check.{Agrees, verify_file, accepted, verify_file_accepts}
use asignify.Sign.Files.{added, add_files}
use asignify.Sign.Lines.{ok, file_lines}
use asignify.SignVerify.Entry.{IsSignable, merge}
use asignify.SignVerify.Table.{found}
use asignify.SignVerify.Lines.{summary, parse_files-file_lines}
use asignify.SignVerify.Recorded.{IsDisk, IsTrue, named, add_files-IsRecordOf}

module _ (h : Hashes) (disk : Disk) where
  -- What is known of the file `n`, if anything, agrees with the disk.
  abbrev Known : Bytes → Option File → Type 0
  Known n none = Unit
  Known n (some g) = (node : Node) × (xopen disk n ≡ some node) × Agrees h node g

  merge-Agrees :
      (f g : File) (node : Node) → Agrees h node f → Agrees h node g → Agrees h node (merge f g)
  merge-Agrees f g node a b = elim (Bool-cases (f.size == 0)) [
    | inr sized ↦ rw sized (record { size_is = a.size_is; digests_are = b.digests_are })
    | inl unsized ↦ rw unsized (with_digests f.digests a.digests_are)
  ]
    where
      with_digests :
          (ds : List FileDigest)
          → All
              (λ d.
                hash_of h d.digest_type (concat node.descriptor.reads)
                ≡ some (take (digest_len d.digest_type) d.digest))
              ds
          → Agrees h node (elim ds [ [] ↦ g | d ∷ ds ↦ record g { digests = d ∷ g.digests } ])
      with_digests [] t = b
      with_digests (d ∷ ds) t = record { size_is = b.size_is; digests_are = (t.0, b.digests_are) }

  Known-merge :
      (n : Bytes) (f : File) (known : Option File)
      → IsTrue h disk f
      → bytes_eq f.fname n ≡ true
      → Known n known
      → Known n (some (merge f (found known n)))
  unfolding new_file
  Known-merge n f none t e k =
      let opened = rw ((bytes_eq_iff f.fname n).0 e) at t.opened in
      (
        t.node,
        opened,
        merge-Agrees f (new_file n) t.node t.agrees
            (record { size_is = inl refl; digests_are = tt }),
      )
  Known-merge n f (some g) t e (node, o, a) =
      let opened = rw ((bytes_eq_iff f.fname n).0 e) at t.opened in
      let same : t.node ≡ node = cc in (node, o, merge-Agrees f g node (rw same at t.agrees) a)

  Known-summary :
      (n : Bytes) (known : Option File) (fs : List File)
      → All (IsTrue h disk) fs
      → Known n known
      → Known n (summary n known fs)
  Known-summary n known [] t k = k
  Known-summary n known (f ∷ fs) t k = elim (Bool-cases (bytes_eq f.fname n)) [
    | inl e ↦
        rw e
          (Known-summary n (some (merge f (found known n))) fs t.1 (Known-merge n f known t.0 e k))
    | inr e ↦ rw e (Known-summary n known fs t.1 k)
  ]

-- Nothing that is known of a file is forgotten, and something is known of every file that is named.
summary-some :
    (n : Bytes) (g : File) (fs : List File) → (r : File) × (summary n (some g) fs ≡ some r)
summary-some n g [] = (g, refl)
summary-some n g (f ∷ fs) = elim (Bool-cases (bytes_eq f.fname n)) [
  | inl e ↦ rw e (summary-some n (merge f g) fs)
  | inr e ↦ rw e (summary-some n g fs)
]

summary-named :
    (n : Bytes) (known : Option File) (fs : List File)
    → named n fs ≡ true
    → (r : File) × (summary n known fs ≡ some r)
summary-named n known [] e = cc
summary-named n known (f ∷ fs) e = elim (Bool-cases (bytes_eq f.fname n)) [
  | inl same ↦ rw same (summary-some n (merge f (found known n)) fs)
  | inr other ↦ rw other (summary-named n known fs (rw other at e))
]

module _ (h : Hashes) (disk : Disk) (i : IsDisk disk) (files : FileTable) (fs : List File) where
  verify_file-named :
      (n : Bytes)
      → All (IsTrue h disk) fs
      → get_file n files ≡ summary n none fs
      → named n fs ≡ true
      → verify_file h disk (some files) n ≡ accepted
  verify_file-named n t e k =
      let (g, g_is) = summary-named n none fs k in
      let (node, o, a) = rw g_is at (Known-summary h disk n none fs t tt) in
      verify_file_accepts h disk files n g node (e ∙ g_is) o (i.seeks n node o) a

  verify_file-calls :
      (calls : List (Bytes × DigestType))
      → All (IsTrue h disk) fs
      → ((n : Bytes) → get_file n files ≡ summary n none fs)
      → All (λ c. named c.0 fs ≡ true) calls
      → All (λ c. verify_file h disk (some files) c.0 ≡ accepted) calls
  verify_file-calls [] t e k = tt
  verify_file-calls (c ∷ calls) t e k =
      (verify_file-named c.0 t (e c.0) k.0, verify_file-calls calls t e k.1)

signable : (h : Hashes) (disk : Disk) (fs : List File) → All (IsTrue h disk) fs → All IsSignable fs
signable h disk [] t = tt
signable h disk (f ∷ fs) t = (t.0.signable, signable h disk fs t.1)

-- If every call of `asignify_sign_add_file` succeeds, with names that the format can hold, and the
-- lines for the files can be printed, then the parser of the verifying side accepts the lines, and
-- on the same disk, whose files can be read from their start, every one of the files is accepted by
-- `asignify_verify_file` with the table that the parser has filled.
pub verify_file-add_files :
    (h : Hashes) (disk : Disk) (calls : List (Bytes × DigestType)) {fs : List File} {text : Bytes}
    → IsDisk disk
    → All (λ c. IsName c.0) calls
    → add_files h disk [] calls ≡ added fs
    → file_lines fs ≡ ok text
    → (files : FileTable) × (parse_files [] text
        ≡ some (record { accepted = true; bad_format = false; files = files }))
      × All (λ c. verify_file h disk (some files) c.0 ≡ accepted) calls
verify_file-add_files h disk calls {fs} i g e l =
    let r = add_files-IsRecordOf h disk calls i g e in
    let (files, parsed, lookups) = parse_files-file_lines fs (signable h disk fs r.files_true) l in
    (files, parsed, verify_file-calls h disk i files fs calls r.files_true lookups r.calls_named)
