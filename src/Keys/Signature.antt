-- ===== src/Keys/Signature.antt =====
-- `asignify_private_data_sign` of libasignify/signature.c and `asignify_pubkey_check_signature` of
-- libasignify/pubkey.c.
use asignify.Base.{
  zero, suc, ℕ, ◌/◌, ◌%◌, ◌^◌, ◌≡◌, refl, sym, ap, ◌∙◌, arith, Bool, true, false, not, ◌&&◌, ◌||◌,
  none, some, [], ◌∷◌, ◌++◌,
}
use asignify.Base.{
  Bytes, ◌==◌, if◌then◌else◌, length, take, drop, take_all, bytes_eq, bytes_eq_refl, bytes_eq_iff,
  length-append,
}
use asignify.Util.Digest.{Hashes}
use asignify.Data.{PublicData, PrivateData}
use asignify.Crypto.Ed25519.{Ed25519, sha512_of}

-- The bytes of an `unsigned int`, the lowest first.
abbrev pub uint_bytes : ℕ → Bytes
uint_bytes v = v % 256 ∷ (v / 2 ^ 8) % 256 ∷ (v / 2 ^ 16) % 256 ∷ (v / 2 ^ 24) % 256 ∷ []

-- A null pointer, or the use of the two fields of a key with no identifier.
pub data Signed : Type 0 where
  signed : PublicData → Signed
  no_signature undefined : Signed

-- The signature is stored over the first 64 bytes of the buffer, and is of those behind them.
unfoldable pub private_data_sign : {h : Hashes} → Ed25519 h → PrivateData → Bytes → Signed
private_data_sign ed privk buf = if length buf == 0 then no_signature else elim privk.id [
  | none ↦ undefined
  | some i ↦ signed (record {
    data_bytes = ed.sign privk.data_bytes (drop 64 buf);
    id = i;
    aux = none;
    version = privk.version;
  })
]

-- The hash that is signed, one update after the other.
unfoldable pub signed_hash : Hashes → PublicData → PublicData → Bytes → Bytes
signed_hash h pk sig text =
    let first = h.sha512.update h.sha512.init (take 32 sig.data_bytes) in
    let second = h.sha512.update first (take 32 pk.data_bytes) in
    h.sha512.final (h.sha512.update second text)

check_text : {h : Hashes} → Ed25519 h → PublicData → PublicData → Bytes → Bool
unfolding signed_hash
check_text {h} ed pk sig text =
    if length pk.data_bytes == 32 && length sig.data_bytes == 64
    then ed.verify sig.data_bytes (signed_hash h pk sig text) pk.data_bytes
    else false

unfoldable pub check_signature : {h : Hashes} → Ed25519 h → PublicData → PublicData → Bytes → Bool
unfolding check_text
check_signature ed pk sig text =
    if not (pk.version == sig.version) || not (bytes_eq pk.id sig.id)
    then false
    else if pk.version == 0
    then check_text ed pk sig text
    else if pk.version == 1
    then check_text ed pk sig (uint_bytes sig.version ++ text)
    else false

signed_hash-sha512_of :
    (h : Hashes) (pk sig : PublicData) (text : Bytes)
    → signed_hash h pk sig text
      ≡ sha512_of h (take 32 sig.data_bytes ++ (take 32 pk.data_bytes ++ text))
unfolding signed_hash
signed_hash-sha512_of h pk sig text = ap h.sha512.final (
    sym (h.sha512.update-append _ (take 32 pk.data_bytes) text)
    ∙ sym (
        h.sha512.update-append h.sha512.init (take 32 sig.data_bytes)
          (take 32 pk.data_bytes ++ text)))

-- The public key of a secret key with an identifier.
abbrev pub public_key : {h : Hashes} → Ed25519 h → Bytes → Bytes → PublicData
public_key ed sk i = record { data_bytes = ed.public_of sk; id = i; aux = none; version = 1 }

check_text-sign :
    {h : Hashes} (ed : Ed25519 h) (sk i text : Bytes)
    → check_text ed
        (public_key ed sk i)
        (record { data_bytes = ed.sign sk text; id = i; aux = none; version = 1 })
        text
      ≡ true
unfolding check_text
check_text-sign {h} ed sk i text =
    let sig : PublicData = record {
      data_bytes = ed.sign sk text;
      id = i;
      aux = none;
      version = 1;
    } in
    let pk_whole : take 32 (ed.public_of sk) ≡ ed.public_of sk =
      take_all 32 (ed.public_of sk) (ed.length-public_of sk) in
    rw
      (
        ed.length-sign sk text,
        check_text,
        ed.length-public_of sk,
        signed_hash-sha512_of h (public_key ed sk i) sig text,
        pk_whole,
      )
      (ed.verify-sign sk text)

pub drop-append_le : (n : ℕ) (a b : Bytes) → length a ≡ n → drop n (a ++ b) ≡ b
drop-append_le zero [] b e = refl
drop-append_le zero (x ∷ a) b e = absurd (omega arith)
drop-append_le (suc n) [] b e = absurd (omega arith)
drop-append_le (suc n) (x ∷ a) b e = drop-append_le n a b (omega arith)

-- The signature of the text, with the bytes of the version in front of it.
abbrev pub signature_of : {h : Hashes} → Ed25519 h → Bytes → Bytes → Bytes → PublicData
signature_of ed sk i text = record {
  data_bytes = ed.sign sk (uint_bytes 1 ++ text);
  id = i;
  aux = none;
  version = 1;
}

pub check_signature-signature_of :
    {h : Hashes} (ed : Ed25519 h) (sk i text : Bytes)
    → check_signature ed (public_key ed sk i) (signature_of ed sk i text) text ≡ true
unfolding check_signature
check_signature-signature_of ed sk i text =
    rw (bytes_eq_refl i, check_signature) (check_text-sign ed sk i (uint_bytes 1 ++ text))

-- What a secret key of version 1 with an identifier signs, behind 64 bytes of padding and the bytes
-- of the version, is accepted as the signature of the text by its public key.
pub check_signature-private_data_sign :
    {h : Hashes} (ed : Ed25519 h) (sk i pad text : Bytes)
    → length pad ≡ 64
    → (private_data_sign ed
          (record { data_bytes = sk; id = some i; version = 1 })
          (pad ++ (uint_bytes 1 ++ text))
        ≡ signed (signature_of ed sk i text))
      × (check_signature ed (public_key ed sk i) (signature_of ed sk i text) text ≡ true)
unfolding private_data_sign
check_signature-private_data_sign ed sk i pad text e =
    let behind = drop-append_le 64 pad (uint_bytes 1 ++ text) e in
    (rw (some_bytes, private_data_sign, behind) refl, check_signature-signature_of ed sk i text)
  where
    some_bytes : (length (pad ++ (uint_bytes 1 ++ text)) == 0) ≡ false
    some_bytes = ground (arith, length-append pad (uint_bytes 1 ++ text))

check_text-lengths :
    {h : Hashes} (ed : Ed25519 h) (pk sig : PublicData) (text : Bytes)
    → check_text ed pk sig text ≡ true
    → (length pk.data_bytes ≡ 32)
      × (length sig.data_bytes ≡ 64)
      × (ed.verify sig.data_bytes (signed_hash h pk sig text) pk.data_bytes ≡ true)
unfolding check_text
check_text-lengths ed pk sig text e = (ground arith, ground arith, ground arith)

-- A signature is accepted only if its version and its identifier are those of the key, and the two
-- have the lengths of Ed25519.
pub check_signature_same_id :
    {h : Hashes} (ed : Ed25519 h) (pk sig : PublicData) (text : Bytes)
    → check_signature ed pk sig text ≡ true
    → (pk.version ≡ sig.version)
      × (pk.id ≡ sig.id)
      × (length pk.data_bytes ≡ 32)
      × (length sig.data_bytes ≡ 64)
unfolding check_signature
check_signature_same_id ed pk sig text e = (
  ground arith,
  ground (arith, bytes_eq_iff pk.id sig.id),
  ground (
    arith,
    check_text-lengths ed pk sig text,
    check_text-lengths ed pk sig (uint_bytes sig.version ++ text),
  ),
  ground (
    arith,
    check_text-lengths ed pk sig text,
    check_text-lengths ed pk sig (uint_bytes sig.version ++ text),
  ),
)
