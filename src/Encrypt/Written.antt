-- ===== src/Encrypt/Written.antt =====
-- What `asignify_encrypt_crypt_file` writes, and that the first line of it is read as the header.
use asignify.Base.{
  ℕ, zero, suc, ◌+◌, ◌≤◌, ◌<◌, ◌≡◌, refl, sym, ap, ◌∙◌, arith, Bool, true, some, [], ◌∷◌, ◌++◌,
  append_assoc,
}
use asignify.Base.{Bytes, IsBytes, All, All-append, zero_bytes, length, length-append, take, drop}
use asignify.Libc.{isdigit}
use asignify.Libc.Decimal.{decimal, decimal-IsDigits}
use asignify.Libc.Lines.{getlines, getlines-line, IsLine}
use asignify.Util.Digest.{Hashes}
use asignify.Util.Digest.Chunks.{concat}
use asignify.Data.{PrivateData}
use asignify.Crypto.Base64.{Base64}
use asignify.Crypto.Ed25519.{Ed25519}
use asignify.Crypto.Box.{Box}
use asignify.Crypto.Chacha.{Chacha, outputs}
use asignify.Keys.Public.{public_data_load}
use asignify.Keys.Public.Header.{public_data_load-header}
use asignify.Keys.Public.Load.Formats.{text-IsLine}
use asignify.Keys.Signature.{public_key}
use asignify.Encrypt.{encrypted_magic, encrypted_signature_magic, crypted}
use asignify.Encrypt.Crypt.{
  Streams, Random, payload_text, overwrite, put_signature, crypt_header, crypt_body, rounds_of_type,
  sealed_session, crypt_opened,
}
use asignify.Encrypt.Cipher.{crypt_loop-outputs}

payload_text_short :
    (b64 : Base64) (b : Bytes) → length b ≤ 96 → payload_text b64 b ≡ some (b64.ntop b)
unfolding payload_text
payload_text_short b64 b l = ground arith

drop-append_more : (m n : ℕ) (s t : Bytes) → m ≡ length s + n → drop m (s ++ t) ≡ drop n t
drop-append_more m n [] t e = let same : m ≡ n = omega arith in rw same refl
drop-append_more zero n (x ∷ s) t e = absurd (omega arith)
drop-append_more (suc m) n (x ∷ s) t e = drop-append_more m n s t (omega arith)

pub take-append_front : (s t : Bytes) → take (length s) (s ++ t) ≡ s
take-append_front [] t = refl
take-append_front (x ∷ s) t = ap (◌∷◌ x) (take-append_front s t)

pub drop-append_front : (n : ℕ) (s t : Bytes) → length s ≡ n → drop n (s ++ t) ≡ t
drop-append_front zero [] t e = refl
drop-append_front zero (x ∷ s) t e = absurd (omega arith)
drop-append_front (suc n) [] t e = absurd (omega arith)
drop-append_front (suc n) (x ∷ s) t e = drop-append_front n s t (omega arith)

overwrite-append :
    (front old text rest : Bytes)
    → length text ≡ length old
    → overwrite (length front) text (front ++ (old ++ rest)) ≡ front ++ (text ++ rest)
overwrite-append front old text rest e =
    rw
      (
        take-append_front front (old ++ rest),
        drop-append_more (length front + length text) (length text) front (old ++ rest) refl,
        drop-append_front (length text) old rest (sym e),
      )
      refl

-- The signature of zeros has the line's end and the body behind it.
overwrite-line :
    (front old text out : Bytes)
    → length text ≡ length old
    → overwrite (length front) text ((front ++ (old ++ b'\n' ∷ [])) ++ out)
      ≡ front ++ (text ++ b'\n' ∷ out)
overwrite-line front old text out e =
    ap (overwrite (length front) text) (
      append_assoc front (old ++ b'\n' ∷ []) out
      ∙ ap (λ s. front ++ s) (append_assoc old (b'\n' ∷ []) out))
    ∙ overwrite-append front old text (b'\n' ∷ out) e

digits-IsLine : (s : Bytes) → All (λ c. isdigit c ≡ true) s → IsLine s
unfolding isdigit
digits-IsLine [] h = tt
digits-IsLine (c ∷ s) h = (ground (arith, h.0), digits-IsLine s h.1)

module _ {h : Hashes} (ed : Ed25519 h) (box : Box ed) (c : Chacha) (b64 : Base64)
    (a b ia ib : Bytes) (r : Random) (safe : Bool) where
  abbrev pub sender : PrivateData
  sender = record { data_bytes = a; id = some ia; version = 1 }

  abbrev pub sealed : Bytes
  sealed = sealed_session ed box c b64 sender (public_key ed b ib) r

  abbrev pub rounds : ℕ
  rounds = rounds_of_type ed box c b64 safe

  abbrev pub body : Bytes → Bytes
  body plain = c.stream r.key r.iv rounds plain

  -- What is signed of a body.
  abbrev pub signed_text : Bytes → Bytes
  signed_text text =
      encrypted_signature_magic
      ++ h.blake2b.final (h.blake2b.update (h.blake2b.update h.blake2b.init sealed) text)

  abbrev pub sig : Bytes → Bytes
  sig plain = ed.sign a (signed_text (body plain))

  -- The line in front of the signature.
  abbrev pub front : Bytes
  front =
      encrypted_magic
      ++ (decimal (100 + rounds)
          ++ (b':' ∷ (b64.ntop ib ++ (b':' ∷ (b64.ntop sealed ++ b':' ∷ [])))))

  abbrev pub encrypted : Bytes → Bytes
  encrypted plain = front ++ (b64.ntop (sig plain) ++ b'\n' ∷ body plain)

  module _ (ln : length r.nonce ≡ 24) (li : length r.iv ≡ 8) (lk : length r.key ≡ 32)
      (l : length ib ≡ 8) where
    length-sealed : length sealed ≡ 96
    length-sealed =
        let m = zero_bytes 32 ++ (r.iv ++ r.key) in
        let sealed_part =
          box.box m r.nonce (box.pk_to_curve (ed.public_of b)) (box.sk_to_curve a) in
        omega (
          arith,
          length-append r.nonce sealed_part,
          box.length-box m r.nonce (box.pk_to_curve (ed.public_of b)) (box.sk_to_curve a),
          length-append r.iv r.key,
        )

    pub crypt_opened-encrypted :
        (io : Streams)
        → ((n : ℕ) → io.fits n ≡ true)
        → io.seeks ≡ true
        → crypt_opened ed box c b64 sender (public_key ed b ib) r safe io
          ≡ crypted (encrypted (concat io.reads))
    unfolding crypt_opened crypt_header crypt_body put_signature
    crypt_opened-encrypted io f k =
        let plain = concat io.reads in
        rw
          (
            payload_text_short b64 ib (omega arith),
            crypt_opened,
            payload_text_short b64 sealed (omega (arith, length-sealed)),
            payload_text_short b64 (zero_bytes 64) (omega arith),
            crypt_header,
            crypt_body,
            crypt_loop-outputs c io.fits f h.blake2b 0 (c.init r.key r.iv rounds)
                (h.blake2b.update h.blake2b.init sealed) [] io.reads,
            k,
            put_signature,
            c.outputs-stream r.key r.iv rounds io.reads,
            payload_text_short b64 (sig plain)
                (omega (arith, ed.length-sign a (signed_text (body plain)))),
          )
          (ap crypted (
            overwrite-line front (b64.ntop (zero_bytes 64)) (b64.ntop (sig plain))
              (outputs c.update c.final (c.init r.key r.iv rounds) io.reads)
              (b64.ntop_same_length (sig plain) (zero_bytes 64)
                (ed.length-sign a (signed_text (body plain))))
            ∙ ap (λ t. front ++ (b64.ntop (sig plain) ++ b'\n' ∷ t))
                (c.outputs-stream r.key r.iv rounds io.reads)))

    module _ (ii : IsBytes ib) (in_bytes : IsBytes r.nonce) (iv_bytes : IsBytes r.iv)
        (key_bytes : IsBytes r.key) where
      sealed-IsBytes : IsBytes sealed
      sealed-IsBytes =
          let m = zero_bytes 32 ++ (r.iv ++ r.key) in
          All-append _ r.nonce
            (box.box m r.nonce (box.pk_to_curve (ed.public_of b)) (box.sk_to_curve a)) in_bytes
            (box.box-IsBytes m r.nonce (box.pk_to_curve (ed.public_of b)) (box.sk_to_curve a)
              (ground (arith, All-append (λ x. x < 256) r.iv r.key iv_bytes key_bytes)))

      front-IsLine : IsLine front
      front-IsLine =
          let field = b':' ∷ (b64.ntop sealed ++ b':' ∷ []) in
          let fields = b':' ∷ (b64.ntop ib ++ field) in
          let text = text-IsLine (b64.ntop sealed) (b64.ntop_text sealed sealed-IsBytes) in
          let after = All-append _ (b64.ntop sealed) (b':' ∷ []) text (refl, tt) in
          let id_text = text-IsLine (b64.ntop ib) (b64.ntop_text ib ii) in
          let line = All-append _ (b64.ntop ib) field id_text (refl, after) in
          let number = digits-IsLine (decimal (100 + rounds)) (decimal-IsDigits (100 + rounds)) in
          All-append _ encrypted_magic (decimal (100 + rounds) ++ fields) magic-IsLine
            (All-append _ (decimal (100 + rounds)) fields number (refl, line))
        where
          magic-IsLine : IsLine encrypted_magic
          magic-IsLine = ground arith

      -- The first line of the file, and what stands behind it.
      pub getlines-encrypted :
          (plain : Bytes)
          → getlines (encrypted plain)
            ≡ (front ++ (b64.ntop (sig plain) ++ b'\n' ∷ [])) ∷ getlines (body plain)
      getlines-encrypted plain =
          let text = b64.ntop (sig plain) in
          let is_text = text-IsLine text (b64.ntop_text (sig plain) (ed.sign-IsBytes a _)) in
          ap getlines (sym (append_assoc front text (b'\n' ∷ body plain)))
          ∙ getlines-line (front ++ text) (body plain)
              (All-append _ front text front-IsLine is_text)
          ∙ ap (λ s. s ∷ getlines (body plain)) (append_assoc front text (b'\n' ∷ []))

      -- The first line is read as the header.
      pub public_data_load-encrypted :
          (plain : Bytes)
          → public_data_load b64
              (front ++ (b64.ntop (sig plain) ++ b'\n' ∷ []))
              encrypted_magic
              1
              120
              8
              96
            ≡ some (record {
              data_bytes = sealed;
              id = ib;
              aux = some (b64.ntop (sig plain));
              version = 100 + rounds;
            })
      public_data_load-encrypted plain =
          let read =
            public_data_load-header b64 (100 + rounds) ib sealed (sig plain) ii sealed-IsBytes
              (ed.sign-IsBytes a _) (ed.length-sign a _) encrypted_magic 1 120 (omega arith) known
              (omega arith) in
          ap (λ s. public_data_load b64 s encrypted_magic 1 120 8 96) line_shape
          ∙ (rw (l, length-sealed) at read)
        where
          known : 100 + rounds ≤ 120
          known = ground arith

          tail : Bytes
          tail = b64.ntop (sig plain) ++ b'\n' ∷ []

          line_shape :
              front ++ tail
              ≡ encrypted_magic
                ++ (decimal (100 + rounds)
                    ++ b':' ∷ (b64.ntop ib ++ b':' ∷ (b64.ntop sealed ++ b':' ∷ tail)))
          line_shape = simp append_assoc
