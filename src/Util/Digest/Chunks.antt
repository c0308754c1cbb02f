-- ===== src/Util/Digest/Chunks.antt =====
-- The digest of a file does not depend on how its contents are cut into reads.
use asignify.Base.{
  false, IsBytes, Bool-cases, inl, inr, ◌≡◌, refl, sym, ◌∙◌, arith, true, Option, none, some,
}
use asignify.Base.{List, [], ◌∷◌, ◌++◌, Bytes, length}
use asignify.Util.Digest.{DigestType, digest_len, HashAlgorithm, Hashes, Descriptor}
use asignify.Util.Digest.{digest_reads, digest_seek, digest_fd}

abbrev pub concat : List Bytes → Bytes
concat [] = []
concat (b ∷ bs) = b ++ concat bs

pub digest_reads-concat :
    (a : HashAlgorithm) (s : a.State) (bufs : List Bytes)
    → digest_reads a s bufs ≡ a.update s (concat bufs)
unfolding digest_reads
digest_reads-concat a s [] = sym (a.update-nil s)
digest_reads-concat a s (b ∷ bs) =
    digest_reads-concat a (a.update s b) bs ∙ sym (a.update-append s b (concat bs))

-- The hash of the whole contents, for a kind of digest that has one.
abbrev pub hash_of : Hashes → DigestType → Bytes → Option Bytes
hash_of h DigestType.sha512 s = some (h.sha512.final (h.sha512.update h.sha512.init s))
hash_of h DigestType.sha256 s = some (h.sha256.final (h.sha256.update h.sha256.init s))
hash_of h DigestType.blake2 s = some (h.blake2b.final (h.blake2b.update h.blake2b.init s))
hash_of h _ s = none

-- On a file that can seek the result is the hash of the contents from the start, however the
-- reads cut them; a size is no digest, and gives none.
pub digest_fd-hash_of :
    (h : Hashes) (type : DigestType) (bufs : List Bytes)
    → digest_fd h type (some (record { seeks = true; reads = bufs })) ≡ hash_of h type (concat bufs)
unfolding digest_fd
digest_fd-hash_of h DigestType.sha512 bufs = rw digest_reads-concat
digest_fd-hash_of h DigestType.sha256 bufs = rw digest_reads-concat
digest_fd-hash_of h DigestType.blake2 bufs = rw digest_reads-concat
digest_fd-hash_of h _ bufs = refl

length-digest_seek :
    (a : HashAlgorithm) (fd : Descriptor) {d : Bytes}
    → digest_seek (some a) fd ≡ some d
    → length d ≡ a.final_len
unfolding digest_seek
length-digest_seek a fd e = ground (arith, a.length-final (digest_reads a a.init fd.reads))

-- Every digest that is computed has the length that `asignify_digest_len` gives its kind.
pub length-digest_fd :
    (h : Hashes) (type : DigestType) (fd : Option Descriptor) {d : Bytes}
    → digest_fd h type fd ≡ some d
    → length d ≡ digest_len type
unfolding digest_fd
length-digest_fd h type none e = cc
length-digest_fd h DigestType.sha512 (some fd) e = length-digest_seek h.sha512 fd e ∙ h.sha512_len
length-digest_fd h DigestType.sha256 (some fd) e = length-digest_seek h.sha256 fd e ∙ h.sha256_len
length-digest_fd h DigestType.blake2 (some fd) e = length-digest_seek h.blake2b fd e ∙ h.blake2b_len
length-digest_fd h _ (some fd) e = cc

digest_fd-unseekable :
    (h : Hashes) (type : DigestType) (fd : Descriptor)
    → fd.seeks ≡ false
    → digest_fd h type (some fd) ≡ none
unfolding digest_fd digest_seek
digest_fd-unseekable h DigestType.sha512 fd s = rw s refl
digest_fd-unseekable h DigestType.sha256 fd s = rw s refl
digest_fd-unseekable h DigestType.blake2 fd s = rw s refl
digest_fd-unseekable h _ fd s = refl

pub digest_fd-seekable :
    (h : Hashes) (type : DigestType) (fd : Descriptor)
    → fd.seeks ≡ true
    → digest_fd h type (some fd) ≡ hash_of h type (concat fd.reads)
digest_fd-seekable h type fd s = rw s (digest_fd-hash_of h type fd.reads)

-- A digest that was computed is the hash of the contents.
pub digest_fd-contents :
    (h : Hashes) (type : DigestType) (fd : Descriptor) {d : Bytes}
    → digest_fd h type (some fd) ≡ some d
    → hash_of h type (concat fd.reads) ≡ some d
digest_fd-contents h type fd {d} e = elim (Bool-cases fd.seeks) [
  | inl s ↦ sym (digest_fd-hash_of h type fd.reads) ∙ (rw s at e)
  | inr s ↦ let bad = sym (digest_fd-unseekable h type fd s) ∙ e in cc
]

seek-IsBytes :
    (a : HashAlgorithm) (fd : Descriptor) {d : Bytes} → digest_seek (some a) fd ≡ some d → IsBytes d
unfolding digest_seek
seek-IsBytes a fd {d} e = elim (Bool-cases fd.seeks) [
  | inl s ↦
      let same : a.final (digest_reads a a.init fd.reads) ≡ d = (let f = rw s at e in cc) in
      rw same at (a.final-IsBytes (digest_reads a a.init fd.reads))
  | inr s ↦ let no = rw s at e in cc
]

-- A digest that was computed is of bytes.
pub digest_fd-IsBytes :
    (h : Hashes) (type : DigestType) (fd : Descriptor) {d : Bytes}
    → digest_fd h type (some fd) ≡ some d
    → IsBytes d
unfolding digest_fd
digest_fd-IsBytes h DigestType.sha512 fd e = seek-IsBytes h.sha512 fd e
digest_fd-IsBytes h DigestType.sha256 fd e = seek-IsBytes h.sha256 fd e
digest_fd-IsBytes h DigestType.blake2 fd e = seek-IsBytes h.blake2b fd e
digest_fd-IsBytes h _ fd e = cc
