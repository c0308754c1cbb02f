-- ===== src/Keys/Public/Load/Formats.antt =====
-- The three formats of a public key, and the signatures of this program and of OpenBSD, are read.
use asignify.Base.{
  none, false, ◌+◌, ◌≤◌, ◌<◌, ◌≡◌, refl, ap, ◌∙◌, arith, true, not, ◌&&◌, some, List, [], ◌∷◌, ◌++◌,
  append_assoc,
}
use asignify.Base.{
  Bytes, All, All-append, ltb, ◌==◌, length, length-append, starts_with, starts_with-append,
}
use asignify.Libc.{isgraph}
use asignify.Libc.Lines.{getlines, getlines-line, IsLine}
use asignify.Data.{PublicData}
use asignify.Crypto.Base64.{Base64}
use asignify.Keys.Public.{
  public_data_load, pubkey_magic, sig_magic, public_line, pubkey_write, sig_line, signature_write,
}
use asignify.Keys.Public.RoundTrip.{
  IsPublic, public_line-text, public_data_load-public_line, public_line_long, sig_line-public_line,
}
use asignify.Keys.Write.{wrote}
use asignify.Keys.Public.Load.{
  Junk, pubkey_line, pubkey_lines, pubkey_load, sig_one_line, sig_lines, signature_load,
}

pub text-IsLine : (s : Bytes) → All (λ c. (isgraph c && not (c == b':')) ≡ true) s → IsLine s
unfolding isgraph
text-IsLine [] h = tt
text-IsLine (c ∷ s) h = (ground (arith, h.0), text-IsLine s h.1)

module _ (b64 : Base64) (magic : Bytes) (m : IsLine magic) where
  -- The line of a public key or of a signature, and what stands behind it.
  getlines-public_line :
      (pk : PublicData) (rest : Bytes) {line : Bytes}
      → IsPublic pk
      → public_line b64 magic pk ≡ some line
      → getlines (line ++ rest) ≡ line ∷ getlines rest
  getlines-public_line pk rest {line} p e =
      rw (← whole)
        (ap getlines (append_assoc text (b'\n' ∷ []) rest) ∙ getlines-line text rest is_line)
    where
      data_text : Bytes
      data_text = b':' ∷ b64.ntop pk.data_bytes

      text : Bytes
      text = magic ++ (b'1' ∷ b':' ∷ (b64.ntop pk.id ++ data_text))

      whole : text ++ b'\n' ∷ [] ≡ line
      whole = simp append_assoc (public_line-text b64 magic pk e)

      is_line : IsLine text
      is_line = All-append _ magic (b'1' ∷ b':' ∷ (b64.ntop pk.id ++ data_text)) m (
        refl,
        (
          refl,
          All-append _ (b64.ntop pk.id) data_text
              (text-IsLine (b64.ntop pk.id) (b64.ntop_text pk.id p.id_bytes))
              (
                refl,
                text-IsLine (b64.ntop pk.data_bytes) (b64.ntop_text pk.data_bytes p.data_bytes_are),
              ),
        ),
      )

  -- It begins with the magic and is longer than that by ten bytes.
  public_line-starts :
      (pk : PublicData) {line : Bytes}
      → public_line b64 magic pk ≡ some line
      → (starts_with magic line ≡ true) × (length magic + 2 ≤ length line)
  public_line-starts pk {line} e =
      let rest = b'1' ∷ b':' ∷ (b64.ntop pk.id ++ b':' ∷ (b64.ntop pk.data_bytes ++ b'\n' ∷ [])) in
      rw (← public_line-text b64 magic pk e)
        (starts_with-append magic rest, omega (arith, length-append magic rest))

pubkey_magic-IsLine : IsLine pubkey_magic
pubkey_magic-IsLine = ground arith

sig_magic-IsLine : IsLine sig_magic
sig_magic-IsLine = ground arith

-- A public key of version 1, with an identifier of 8 bytes and 32 bytes of data, is printed as a
-- file, and what is read from the lines of that file is the same key, whatever follows it there.
pub pubkey_load-pubkey_write :
    (b64 : Base64) (junk : Junk) (pk : PublicData) (rest : Bytes)
    → IsPublic pk
    → length pk.id ≡ 8
    → length pk.data_bytes ≡ 32
    → (text : Bytes) × (pubkey_write b64 pk ≡ wrote text)
      × (pubkey_load b64 junk (getlines (text ++ rest)) ≡ some (some pk))
unfolding pubkey_write pubkey_load pubkey_lines pubkey_line
pubkey_load-pubkey_write b64 junk pk rest p i d =
    let (line, is_line) = public_line_long b64 pubkey_magic pk (omega arith) (omega arith) in
    let read = rw (i, d) at (public_data_load-public_line b64 pubkey_magic pk p is_line) in
    let (starts, long) = public_line-starts b64 pubkey_magic pubkey_magic-IsLine pk is_line in
    (
      line,
      writes line is_line,
      rw (getlines-public_line b64 pubkey_magic pubkey_magic-IsLine pk rest p is_line)
          (first_line line (getlines rest) starts (omega arith) read),
    )
  where
    writes :
        (line : Bytes)
        → public_line b64 pubkey_magic pk ≡ some line
        → pubkey_write b64 pk ≡ wrote line
    writes line e = let version = p.version_is in ground arith

    one_line :
        (line : Bytes)
        → starts_with pubkey_magic line ≡ true
        → 18 ≤ length line
        → public_data_load b64 line pubkey_magic 1 1 8 32 ≡ some pk
        → pubkey_line b64 junk true line none ≡ some (false, some pk)
    one_line line s l e =
        let long : ltb 17 (length line) ≡ true = ground arith in rw (long, s, pubkey_line, e) refl

    first_line :
        (line : Bytes) (lines : List Bytes)
        → starts_with pubkey_magic line ≡ true
        → 18 ≤ length line
        → public_data_load b64 line pubkey_magic 1 1 8 32 ≡ some pk
        → pubkey_load b64 junk (line ∷ lines) ≡ some (some pk)
    first_line line lines s l e = rw (one_line line s l e, pubkey_load, pubkey_lines) refl

-- A signature of version 1, with an identifier of 8 bytes and 64 bytes of data, is written in front
-- of a text that is not empty, and is read from the file that this makes, with the lines of the
-- text left to be read.
pub signature_load-signature_write :
    (b64 : Base64) (sig : PublicData) (buf : Bytes)
    → IsPublic sig
    → length sig.id ≡ 8
    → length sig.data_bytes ≡ 64
    → 0 < length buf
    → (file : Bytes) × (signature_write b64 sig buf ≡ wrote file)
      × (signature_load b64 8 (getlines file) ≡ (some sig, getlines buf))
unfolding signature_write signature_load sig_lines sig_one_line
signature_load-signature_write b64 sig buf p i d some_text =
    let (line, is_line) = public_line_long b64 sig_magic sig (omega arith) (omega arith) in
    let read = rw (i, d) at (public_data_load-public_line b64 sig_magic sig p is_line) in
    let (starts, long) = public_line-starts b64 sig_magic sig_magic-IsLine sig is_line in
    (
      line ++ buf,
      writes line (sig_line-public_line b64 sig i ∙ is_line),
      rw (getlines-public_line b64 sig_magic sig_magic-IsLine sig buf p is_line)
          (first_line line (getlines buf) starts (omega arith) read),
    )
  where
    writes :
        (line : Bytes)
        → sig_line b64 sig ≡ some line
        → signature_write b64 sig buf ≡ wrote (line ++ buf)
    writes line e = let version = p.version_is in ground arith

    first_line :
        (line : Bytes) (lines : List Bytes)
        → starts_with sig_magic line ≡ true
        → 15 ≤ length line
        → public_data_load b64 line sig_magic 1 1 8 64 ≡ some sig
        → signature_load b64 8 (line ∷ lines) ≡ (some sig, lines)
    first_line line lines s l e =
        let long : ltb 14 (length line) ≡ true = ground arith in
        rw (long, signature_load, s, sig_one_line, e) refl
