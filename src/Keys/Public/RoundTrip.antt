-- ===== src/Keys/Public/RoundTrip.antt =====
-- A public line that is printed is read back.
use asignify.Base.{
  ◌≤◌, ◌<◌, ◌≡◌, refl, ◌∙◌, arith, true, false, not, ◌&&◌, none, some, [], ◌∷◌, ◌++◌,
}
use asignify.Base.{Bytes, IsBytes, All, ◌==◌, length, length-append, drop, starts_with-append}
use asignify.Libc.{isgraph, isdigit}
use asignify.Libc.Decimal.{decimal, strtoul, strtoul-decimal, digit_span_stop}
use asignify.Data.{PublicData}
use asignify.Crypto.Base64.{Base64, at_colon, at_newline}
use asignify.Keys.Fields.{ulong_max}
use asignify.Keys.Public.{
  strchr, aux_of, load_data, load_id, load_version, public_data_load, encoded, public_line,
  pubkey_write, pubkey_magic, sig_magic, sig_line, signature_write,
}
use asignify.Keys.Write.{wrote}

pub drop-append : (a b : Bytes) → drop (length a) (a ++ b) ≡ b
drop-append [] b = refl
drop-append (x ∷ a) b = drop-append a b

pub strchr-append :
    (a rest : Bytes)
    → All (λ c. (isgraph c && not (c == b':')) ≡ true) a
    → strchr b':' (a ++ rest) ≡ strchr b':' rest
unfolding strchr isgraph
strchr-append [] rest h = refl
strchr-append (x ∷ a) rest h = ground (arith, h.0, strchr-append a rest h.1)

version_read :
    (rest : Bytes)
    → strtoul ulong_max (b'1' ∷ b':' ∷ rest) ≡ record { value = 1; used = 1; range = false }
unfolding isdigit decimal
version_read rest =
    strtoul-decimal ulong_max 1 (b':' ∷ rest) (omega arith) (digit_span_stop b':' rest refl)

module _ (b64 : Base64) where
  load_data-ntop :
      (b id : Bytes)
      → IsBytes b
      → load_data b64 1 (length b) id (some (b':' ∷ (b64.ntop b ++ b'\n' ∷ [])))
        ≡ some (record { data_bytes = b; id = id; aux = none; version = 1 })
  unfolding load_data aux_of strchr
  load_data-ntop b id h =
      rw
        (
          b64.pton_stop-ntop (length b) b (b'\n' ∷ []) h (omega arith) at_newline,
          load_data,
          strchr-append (b64.ntop b) (b'\n' ∷ []) (b64.ntop_text b h),
        )
        (ground arith)

  load_id-ntop :
      (b id : Bytes)
      → IsBytes b
      → IsBytes id
      → load_id b64 1 (length id) (length b) (b64.ntop id ++ b':' ∷ (b64.ntop b ++ b'\n' ∷ []))
        ≡ some (record { data_bytes = b; id = id; aux = none; version = 1 })
  unfolding load_id strchr
  load_id-ntop b id h i =
      rw
        (
          b64.pton_stop-ntop (length id) id (b':' ∷ (b64.ntop b ++ b'\n' ∷ [])) i (omega arith)
              at_colon,
          load_id,
          strchr-append (b64.ntop id) (b':' ∷ (b64.ntop b ++ b'\n' ∷ [])) (b64.ntop_text id i),
        )
        (ground (arith, load_data-ntop b id h))

  public_data_load-text :
      (magic b id : Bytes)
      → IsBytes b
      → IsBytes id
      → public_data_load b64
          (magic ++ b'1' ∷ b':' ∷ (b64.ntop id ++ b':' ∷ (b64.ntop b ++ b'\n' ∷ [])))
          magic
          1
          1
          (length id)
          (length b)
        ≡ some (record { data_bytes = b; id = id; aux = none; version = 1 })
  unfolding public_data_load load_version
  public_data_load-text magic b id h i =
      let rest = b64.ntop id ++ b':' ∷ (b64.ntop b ++ b'\n' ∷ []) in
      rw
        (
          drop-append magic (b'1' ∷ b':' ∷ rest),
          public_data_load,
          version_read rest,
          starts_with-append magic (b'1' ∷ b':' ∷ rest),
        )
        (ground (arith, length-append magic (b'1' ∷ b':' ∷ rest), load_id-ntop b id h i))

-- The parts of a public key or a signature of version 1, with nothing behind its data.
pub record IsPublic (pk : PublicData) : Type 0 where
  pub version_is : pk.version ≡ 1
  pub no_aux : pk.aux ≡ none
  pub id_bytes : IsBytes pk.id
  pub data_bytes_are : IsBytes pk.data_bytes

pub public_line-text :
    (b64 : Base64) (magic : Bytes) (pk : PublicData) {line : Bytes}
    → public_line b64 magic pk ≡ some line
    → magic ++ b'1' ∷ b':' ∷ (b64.ntop pk.id ++ b':' ∷ (b64.ntop pk.data_bytes ++ b'\n' ∷ []))
      ≡ line
unfolding public_line encoded
public_line-text b64 magic pk {line} e = ground arith

pub public_data_load-public_line :
    (b64 : Base64) (magic : Bytes) (pk : PublicData) {line : Bytes}
    → IsPublic pk
    → public_line b64 magic pk ≡ some line
    → public_data_load b64 line magic 1 1 (length pk.id) (length pk.data_bytes) ≡ some pk
public_data_load-public_line b64 magic pk {line} p e = rw (← public_line-text b64 magic pk e) (
    public_data_load-text b64 magic pk.data_bytes pk.id p.data_bytes_are p.id_bytes
    ∙ rw (← p.version_is, ← p.no_aux) refl)

encoded_long : (b64 : Base64) (b : Bytes) → 8 ≤ length b → encoded b64 b ≡ some (b64.ntop b)
unfolding encoded
encoded_long b64 b h = ground arith

pub public_line_long :
    (b64 : Base64) (magic : Bytes) (pk : PublicData)
    → 8 ≤ length pk.id
    → 8 ≤ length pk.data_bytes
    → (line : Bytes) × (public_line b64 magic pk ≡ some line)
unfolding public_line
public_line_long b64 magic pk i d = (
  magic ++ b'1' ∷ b':' ∷ (b64.ntop pk.id ++ b':' ∷ (b64.ntop pk.data_bytes ++ b'\n' ∷ [])),
  rw (encoded_long b64 pk.id i, public_line, encoded_long b64 pk.data_bytes d) refl,
)

-- A public key of version 1, with an identifier of 8 bytes and 32 bytes of data, is printed, and
-- what is printed is read back as the same key.
pub public_data_load-pubkey_write :
    (b64 : Base64) (pk : PublicData)
    → IsPublic pk
    → length pk.id ≡ 8
    → length pk.data_bytes ≡ 32
    → (text : Bytes) × (pubkey_write b64 pk ≡ wrote text)
      × (public_data_load b64 text pubkey_magic 1 1 8 32 ≡ some pk)
unfolding pubkey_write
public_data_load-pubkey_write b64 pk p i d =
    let (line, is_line) = public_line_long b64 pubkey_magic pk (omega arith) (omega arith) in
    (
      line,
      writes line is_line,
      rw (i, d) at (public_data_load-public_line b64 pubkey_magic pk p is_line),
    )
  where
    writes :
        (line : Bytes)
        → public_line b64 pubkey_magic pk ≡ some line
        → pubkey_write b64 pk ≡ wrote line
    writes line e = let version = p.version_is in ground arith

pub sig_line-public_line :
    (b64 : Base64) (sig : PublicData)
    → length sig.id ≡ 8
    → sig_line b64 sig ≡ public_line b64 sig_magic sig
unfolding sig_line
sig_line-public_line b64 sig e = rw (e, sig_line) refl

-- A signature of version 1, with an identifier of 8 bytes and 64 bytes of data, is written with a
-- text that is not empty as one line and the text behind it, and the line is read back as the same
-- signature.
pub public_data_load-signature_write :
    (b64 : Base64) (sig : PublicData) (buf : Bytes)
    → IsPublic sig
    → length sig.id ≡ 8
    → length sig.data_bytes ≡ 64
    → 0 < length buf
    → (line : Bytes) × (signature_write b64 sig buf ≡ wrote (line ++ buf))
      × (public_data_load b64 line sig_magic 1 1 8 64 ≡ some sig)
unfolding signature_write
public_data_load-signature_write b64 sig buf p i d some_text =
    let (line, is_line) = public_line_long b64 sig_magic sig (omega arith) (omega arith) in
    (
      line,
      writes line (sig_line-public_line b64 sig i ∙ is_line),
      rw (i, d) at (public_data_load-public_line b64 sig_magic sig p is_line),
    )
  where
    writes :
        (line : Bytes)
        → sig_line b64 sig ≡ some line
        → signature_write b64 sig buf ≡ wrote (line ++ buf)
    writes line e = let version = p.version_is in ground arith
