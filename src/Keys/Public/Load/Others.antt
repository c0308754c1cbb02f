-- ===== src/Keys/Public/Load/Others.antt =====
-- The public keys of OpenBSD and OpenSSH, and the signatures of OpenBSD, are read.
use asignify.Base.{
  append-nil, ℕ, zero, suc, ◌+◌, ◌/◌, ◌<◌, ◌≤◌, ◌≡◌, refl, ap, arith, true, false, ◌&&◌, Bool-cases,
  inl, inr, Option, none, some, List, [], ◌∷◌, ◌++◌,
}
use asignify.Base.{
  Bytes, IsBytes, All, All-append, ltb, leb, ◌==◌, length, length-append, take, drop, take_all,
  bytes_eq, bytes_eq_refl, starts_with, starts_with-append,
}
use asignify.Libc.{isgraph}
use asignify.Libc.Lines.{IsLine}
use asignify.Util.Hex.{size_max}
use asignify.Data.{PublicData}
use asignify.Crypto.Base64.{Base64, at_line_end}
use asignify.Keys.Public.{pubkey_magic}
use asignify.Keys.Ssh.{ssh_read_string, ssh_read_string_short}
use asignify.Keys.Public.Load.{
  Junk, no_junk, alloc_aux, ssh_made, unless_read, obsd_alg, obsd_comment, ssh_magic, obsd_key,
  try_obsd, pubkey_try_obsd, sig_try_obsd, ssh_point, ssh_alg, ssh_blob, ssh_text, try_ssh,
  pubkey_line, pubkey_lines, pubkey_load, sig_second, sig_one_line, sig_lines, signature_load,
}

-- What stands in front of a line, and has no newline, is made of the bytes of the line.
starts_with-All :
    (P : ℕ → Type 0) (p s : Bytes)
    → IsLine p
    → starts_with p (s ++ b'\n' ∷ []) ≡ true
    → All P s
    → All P p
unfolding starts_with
starts_with-All P [] s l e h = tt
starts_with-All P (x ∷ p) [] l e h = absurd (ground (arith, l.0))
starts_with-All P (x ∷ p) (y ∷ s) l e h =
    let same : x ≡ y = ground arith in (rw same h.0, starts_with-All P p s l.1 (ground arith) h.1)

ssh_magic-IsLine : IsLine ssh_magic
ssh_magic-IsLine = ground arith

obsd_comment-IsLine : IsLine obsd_comment
obsd_comment-IsLine = ground arith

module _ (b64 : Base64) (b : Bytes) (h : IsBytes b) where
  not_ssh : starts_with ssh_magic (b64.ntop b ++ b'\n' ∷ []) ≡ false
  not_ssh = elim (Bool-cases (starts_with ssh_magic (b64.ntop b ++ b'\n' ∷ []))) [
    | inl e ↦ absurd (
        ground (
          arith,
          starts_with-All _ ssh_magic (b64.ntop b) ssh_magic-IsLine e (b64.ntop_no_dash b h),
        ))
    | inr e ↦ e
  ]

  not_comment : starts_with obsd_comment (b64.ntop b ++ b'\n' ∷ []) ≡ false
  unfolding isgraph
  not_comment = elim (Bool-cases (starts_with obsd_comment (b64.ntop b ++ b'\n' ∷ []))) [
    | inl e ↦ absurd (
        ground (
          arith,
          starts_with-All _ obsd_comment (b64.ntop b) obsd_comment-IsLine e (b64.ntop_text b h),
        ))
    | inr e ↦ e
  ]

drop-whole : (n : ℕ) (a b : Bytes) → length a ≡ n → drop n (a ++ b) ≡ b
drop-whole zero [] b e = refl
drop-whole zero (x ∷ a) b e = absurd (omega arith)
drop-whole (suc n) [] b e = absurd (omega arith)
drop-whole (suc n) (x ∷ a) b e = drop-whole n a b (omega arith)

take-whole : (n : ℕ) (a b : Bytes) → length a ≡ n → take n (a ++ b) ≡ a
take-whole zero [] b e = refl
take-whole zero (x ∷ a) b e = absurd (omega arith)
take-whole (suc n) [] b e = absurd (omega arith)
take-whole (suc n) (x ∷ a) b e = ap (◌∷◌ x) (take-whole n a b (omega arith))

-- The structure of OpenBSD as text, with the end of the line.
abbrev pub obsd_text : Base64 → Bytes → Bytes → Bytes
obsd_text b64 num key = b64.ntop (obsd_alg ++ (num ++ key)) ++ b'\n' ∷ []

-- The key or the signature in it.
abbrev pub obsd_data : Bytes → Bytes → PublicData
obsd_data num key = record { data_bytes = key; id = num; aux = none; version = 0 }

module _ (b64 : Base64) (num key : Bytes) (l : length num ≡ 8) (i : IsBytes num)
    (d : IsBytes key) where
  blob-IsBytes : IsBytes (obsd_alg ++ (num ++ key))
  blob-IsBytes = ground (arith, All-append (λ c. c < 256) num key i d)

  obsd_key-text :
      (n : ℕ) (res : Option PublicData)
      → length key ≡ n
      → obsd_key n (some (obsd_alg ++ (num ++ key))) res ≡ some (obsd_data num key)
  unfolding obsd_key bytes_eq
  obsd_key-text n res e =
      rw (whole, obsd_key, drop-whole 8 num key l, take-whole 8 num key l, take_all n key e) refl
    where
      whole :
          (length (obsd_alg ++ (num ++ key)) == 10 + n
            && bytes_eq (take 2 (obsd_alg ++ (num ++ key))) obsd_alg)
          ≡ true
      whole = ground (arith, length-append num key)

  try_obsd-text :
      (n : ℕ) (res : Option PublicData)
      → length key ≡ n
      → try_obsd b64 n (obsd_text b64 num key) res ≡ (false, some (obsd_data num key))
  unfolding try_obsd
  try_obsd-text n res e =
      rw
        (
          not_comment b64 (obsd_alg ++ (num ++ key)) blob-IsBytes,
          try_obsd,
          b64.pton-ntop (10 + n) (obsd_alg ++ (num ++ key)) (b'\n' ∷ []) blob-IsBytes
              (omega (arith, length-append num key)) at_line_end,
          obsd_key-text n res e,
        )
        refl

module _ (b64 : Base64) (junk : Junk) (comment : Bytes) where
  try_obsd_comment :
      (n : ℕ) (res : Option PublicData) → try_obsd b64 n (obsd_comment ++ comment) res ≡ (true, res)
  unfolding try_obsd
  try_obsd_comment n res = rw (starts_with-append obsd_comment comment, try_obsd) refl

  pubkey_line_comment : pubkey_line b64 junk true (obsd_comment ++ comment) none ≡ some (true, none)
  unfolding pubkey_line pubkey_try_obsd starts_with
  pubkey_line_comment =
      let long : ltb 17 (length (obsd_comment ++ comment)) ≡ true = ground arith in
      let long_ssh : ltb 12 (length (obsd_comment ++ comment)) ≡ true = ground arith in
      rw (long, pubkey_line, long_ssh) (ap some (try_obsd_comment 32 none))

  sig_one_line_comment :
      (id_len : ℕ) → sig_one_line b64 id_len true (obsd_comment ++ comment) none ≡ (true, none)
  unfolding sig_one_line sig_second sig_try_obsd starts_with
  sig_one_line_comment id_len =
      rw (try_obsd_comment 64 none, sig_one_line, sig_second) (try_obsd_comment 64 none)

-- A comment line and the text of a public key of OpenBSD behind it are read as that key, with
-- version 0, whatever the comment says and whatever lines follow.
pub pubkey_load_openbsd :
    (b64 : Base64) (junk : Junk) (comment num key : Bytes) (lines : List Bytes)
    → length num ≡ 8
    → length key ≡ 32
    → IsBytes num
    → IsBytes key
    → pubkey_load b64 junk ((obsd_comment ++ comment) ∷ obsd_text b64 num key ∷ lines)
      ≡ some (some (obsd_data num key))
unfolding pubkey_load pubkey_lines
pubkey_load_openbsd b64 junk comment num key lines l k i d =
    rw (pubkey_line_comment b64 junk comment, pubkey_lines, text_line) refl
  where
    text_line :
        pubkey_line b64 junk false (obsd_text b64 num key) none
        ≡ some (false, some (obsd_data num key))
    text_line =
        let plain = not_ssh b64 (obsd_alg ++ (num ++ key)) (blob-IsBytes b64 num key l i d) in
        unfold pubkey_line pubkey_try_obsd in
        ground (arith, try_obsd-text b64 num key l i d 32 none k)

-- A comment line and the text of a signature of OpenBSD behind it are read as that signature, and
-- the lines that follow are left.
pub signature_load_openbsd :
    (b64 : Base64) (id_len : ℕ) (comment num sig : Bytes) (lines : List Bytes)
    → length num ≡ 8
    → length sig ≡ 64
    → IsBytes num
    → IsBytes sig
    → signature_load b64 id_len ((obsd_comment ++ comment) ∷ obsd_text b64 num sig ∷ lines)
      ≡ (some (obsd_data num sig), lines)
unfolding signature_load sig_lines
signature_load_openbsd b64 id_len comment num sig lines l k i d =
    let long : ltb 14 (length (obsd_comment ++ comment)) ≡ true = ground arith in
    rw (long, signature_load, sig_lines, sig_one_line_comment b64 no_junk comment id_len, text_line)
      refl
  where
    text_line :
        sig_one_line b64 id_len false (obsd_text b64 num sig) none
        ≡ (false, some (obsd_data num sig))
    text_line = unfold sig_one_line sig_try_obsd in try_obsd-text b64 num sig l i d 64 none k

-- The line of a public key of OpenSSH.
abbrev pub ssh_key_line : Base64 → Bytes → Bytes → Bytes
ssh_key_line b64 key comment =
    ssh_magic
    ++ b' ' ∷ (b64.ntop (0 ∷ 0 ∷ 0 ∷ 11 ∷ (ssh_magic ++ 0 ∷ 0 ∷ 0 ∷ 32 ∷ key)) ++ b' ' ∷ comment)

ssh_read_key :
    (key : Bytes) → length key ≡ 32 → ssh_read_string (0 ∷ 0 ∷ 0 ∷ 32 ∷ key) ≡ some (key, [])
ssh_read_key key e = rw (append-nil key, e) at (ssh_read_string_short key [] (omega arith))

-- The key of the line, with this field `aux`.
abbrev ssh_key : Bytes → Option Bytes → PublicData
ssh_key key aux = record { data_bytes = key; id = []; aux = aux; version = 1 }

ssh_blob-key :
    (junk : Junk) (key : Bytes) (res : Option PublicData)
    → length key ≡ 32
    → ssh_blob junk (some (0 ∷ 0 ∷ 0 ∷ 11 ∷ (ssh_magic ++ 0 ∷ 0 ∷ 0 ∷ 32 ∷ key))) res
      ≡ ssh_made key (alloc_aux junk)
unfolding ssh_blob ssh_alg ssh_point
ssh_blob-key junk key res e =
    rw
      (
        ssh_read_string_short ssh_magic (0 ∷ 0 ∷ 0 ∷ 32 ∷ key) (omega arith),
        ssh_blob,
        bytes_eq_refl ssh_magic,
        ssh_alg,
        ssh_read_key key e,
        ssh_point,
        e,
      )
      refl

-- What is made of the key, by what the memory of its structure holds in the place of `aux_len`.
pub data SshOutcome (junk : Junk) (key : Bytes) (o : Option (Option PublicData)) : Type 0 where
  keeps_aux : junk.aux_len ≡ 0 → o ≡ some (some (ssh_key key junk.aux)) → SshOutcome junk key o
  allocates_aux :
      0 < junk.aux_len
      → junk.aux_len < size_max / 2
      → o ≡ some (some (ssh_key key (some junk.fresh)))
      → SshOutcome junk key o
  aborts : size_max / 2 ≤ junk.aux_len → o ≡ none → SshOutcome junk key o

module _ (b64 : Base64) (junk : Junk) (key comment : Bytes) (e : length key ≡ 32)
    (d : IsBytes key) where
  pubkey_line_ssh :
      pubkey_line b64 junk true (ssh_key_line b64 key comment) none
      ≡ unless_read (ssh_made key (alloc_aux junk))
  unfolding pubkey_line try_ssh ssh_text
  pubkey_line_ssh = rw (not_ours, pubkey_line, ssh, decoded, ssh_blob-key junk key none e) refl
    where
      line : Bytes
      line = ssh_key_line b64 key comment

      not_ours : (ltb 17 (length line) && true && starts_with pubkey_magic line) ≡ false
      not_ours = unfold starts_with in ground arith

      ssh : (ltb 12 (length line) && starts_with ssh_magic line) ≡ true
      ssh =
          unfold starts_with in
          ground (
            arith,
            length-append (b64.ntop (0 ∷ 0 ∷ 0 ∷ 11 ∷ (ssh_magic ++ 0 ∷ 0 ∷ 0 ∷ 32 ∷ key)))
                (b' ' ∷ comment),
          )

      decoded :
          b64.pton_space 64
            (b64.ntop (0 ∷ 0 ∷ 0 ∷ 11 ∷ (ssh_magic ++ 0 ∷ 0 ∷ 0 ∷ 32 ∷ key)) ++ b' ' ∷ comment)
          ≡ some (0 ∷ 0 ∷ 0 ∷ 11 ∷ (ssh_magic ++ 0 ∷ 0 ∷ 0 ∷ 32 ∷ key))
      decoded = b64.pton_space-ntop 64 _ comment (ground arith) (omega arith)

-- A line with the public key of OpenSSH, whatever the comment on the line says and whatever lines
-- follow, is read by what the memory of the new structure holds in the place of `aux_len`, which is
-- never set: if that is 0, then as that key, of version 1 and without an identifier, with the field `aux`
-- as the memory held it; if it is more, then with that field as new memory; and if it is 2^63 - 1 or
-- more, then the program is ended by `abort`.
pub pubkey_load_openssh :
    (b64 : Base64) (junk : Junk) (key comment : Bytes) (lines : List Bytes)
    → length key ≡ 32
    → IsBytes key
    → SshOutcome junk key (pubkey_load b64 junk (ssh_key_line b64 key comment ∷ lines))
unfolding pubkey_load pubkey_lines unless_read ssh_made
pubkey_load_openssh b64 junk key comment lines e d = elim (Bool-cases (junk.aux_len == 0)) [
  | inl zero_len ↦
      let keeps : alloc_aux junk ≡ some junk.aux = (unfold alloc_aux in rw zero_len refl) in
      keeps_aux (ground arith)
        (rw (line, pubkey_load, pubkey_lines, keeps, ssh_made, unless_read) refl)
  | inr some_len ↦ elim (Bool-cases (leb (size_max / 2) junk.aux_len)) [
    | inl huge ↦
        let fails : alloc_aux junk ≡ none = (unfold alloc_aux in rw (some_len, huge) refl) in
        aborts (ground arith)
          (rw (line, pubkey_load, pubkey_lines, fails, ssh_made, unless_read) refl)
    | inr small ↦
        let allocates : alloc_aux junk ≡ some (some junk.fresh) =
          (unfold alloc_aux in rw (some_len, small) refl) in
        allocates_aux (ground arith) (ground arith)
          (rw (line, pubkey_load, pubkey_lines, allocates, ssh_made, unless_read) refl)
  ]
]
  where
    line :
        pubkey_line b64 junk true (ssh_key_line b64 key comment) none
        ≡ unless_read (ssh_made key (alloc_aux junk))
    line = pubkey_line_ssh b64 junk key comment e d
