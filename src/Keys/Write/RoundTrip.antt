-- ===== src/Keys/Write/RoundTrip.antt =====
-- A key that is written is read back.
use asignify.Base.{◌≡◌, refl, ap, ◌∙◌, arith}
use asignify.Base.{true, false, Option, none, some, List, [], ◌∷◌, ◌++◌}
use asignify.Base.{Bytes, IsBytes, codes, length, take, take_all, starts_with}
use asignify.Libc.Decimal.{decimal}
use asignify.Libc.Lines.{getlines, IsLine, getlines-line}
use asignify.Util.Hex.{hex_digits}
use asignify.Data.{PrivateKey}
use asignify.Crypto.{Blake2b}
use asignify.Keys.Load.{
  privkey_magic, no_key, read_key, parse_lines, private_data_load, loaded, PasswordCb, is_sane,
  names_pbkdf, unpack_sane, pkey_to_private_data, unpack_key,
}
use asignify.Keys.Write.{value_line, privkey_write, wrote, id_out, kdf_out, write_fields}
use asignify.Keys.Write.Fields.{parse_lines-Stores, hex_out-value_line}
use asignify.Keys.Write.Members.{version_line, data_line, id_line}

read_key-magic :
    (rest : Bytes)
    → read_key (getlines (privkey_magic ++ b'\n' ∷ rest)) ≡ parse_lines (getlines rest) no_key
unfolding read_key starts_with
read_key-magic rest = rw (getlines-line privkey_magic rest (by_lines)) refl
  where
    by_lines : IsLine privkey_magic
    by_lines = ground arith

-- A key of version 1 with a blob of its size, and an identifier of its size if any.
pub data IsId : Option Bytes → Type 0 where
  no_id : IsId none
  some_id : {i : Bytes} → IsBytes i → length i ≡ 8 → IsId (some i)

-- The line of the identifier, if there is one.
id_text : Option Bytes → Bytes
id_text none = []
id_text (some i) = value_line (codes "id") (hex_digits i)

id_out_lem : (i : Option Bytes) → IsId i → id_out i ≡ some (id_text i)
unfolding id_out id_text
id_out_lem none no_id = refl
id_out_lem (some i) (some_id h e) = hex_out-value_line (codes "id") i 8 h e (omega arith)

parse_lines-id_text :
    (i : Option Bytes) (rest : Bytes) (k : PrivateKey)
    → IsId i
    → k.id ≡ none
    → parse_lines (getlines (id_text i ++ rest)) k
      ≡ parse_lines (getlines rest) (record k { id = i })
unfolding id_text
parse_lines-id_text none rest k no_id e = rw (← e) refl
parse_lines-id_text (some i) rest k (some_id h e) c = parse_lines-Stores rest (id_line k i h e)

-- What the fields of a key make of the text before the fields of the derivation.
pub header : Bytes → Option Bytes → Bytes → Bytes
header b i rest =
    privkey_magic
    ++ (codes "\n"
        ++ (value_line (codes "version") (decimal 1)
            ++ (value_line (codes "data") (hex_digits b) ++ (id_text i ++ rest))))

-- A key that can be written: of version 1, with a blob and an identifier of their sizes.
pub record IsWritable (k : PrivateKey) (b : Bytes) : Type 0 where
  pub version_is : k.version ≡ 1
  pub blob_is : k.encrypted_blob ≡ some b
  pub blob_bytes : IsBytes b
  pub blob_len : length b ≡ 64
  pub id_is : IsId k.id

pub write_fields-header :
    (k : PrivateKey) (b : Bytes) (kdf : Bytes)
    → IsWritable k b
    → kdf_out k k.pbkdf_alg ≡ some kdf
    → privkey_write k ≡ wrote (header b k.id kdf)
unfolding privkey_write write_fields header
write_fields-header k b kdf w e =
    rw
      (
        w.version_is,
        privkey_write,
        w.blob_is,
        write_fields,
        hex_out-value_line (codes "data") b 64 w.blob_bytes w.blob_len (omega arith),
        id_out_lem k.id w.id_is,
        e,
      )
      refl

pub read_key-header :
    (b : Bytes) (i : Option Bytes) (rest : Bytes)
    → IsBytes b
    → length b ≡ 64
    → IsId i
    → read_key (getlines (header b i rest))
      ≡ parse_lines (getlines rest) (record no_key { version = 1; encrypted_blob = some b; id = i })
unfolding header
read_key-header b i rest h e w =
    read_key-magic _
    ∙ parse_lines-Stores _ (version_line no_key)
    ∙ parse_lines-Stores _ (data_line _ b h e)
    ∙ parse_lines-id_text i rest _ w refl

pub pkey_to_private_data_lem :
    (k : PrivateKey) (b : Bytes)
    → IsId k.id
    → length b ≡ 64
    → pkey_to_private_data k b ≡ record { data_bytes = b; id = k.id; version = k.version }
unfolding pkey_to_private_data
pkey_to_private_data_lem k b w e = rw (take_all 64 b e, kept_id k.id w) refl
  where
    kept_id : (i : Option Bytes) → IsId i → elim i [ none ↦ none | some j ↦ some (take 8 j) ] ≡ i
    kept_id none no_id = refl
    kept_id (some j) (some_id h l) = rw (take_all 8 j l) refl

is_sane_lem :
    (k : PrivateKey) (b : Bytes)
    → k.version ≡ 1
    → k.encrypted_blob ≡ some b
    → names_pbkdf k.pbkdf_alg ≡ false
    → is_sane k ≡ true
unfolding is_sane
is_sane_lem k b v e n = ground arith

module _ (blake : Blake2b) where
  unpack_sane-unpack_key :
      (k : PrivateKey) (b : Bytes) (cb : PasswordCb)
      → is_sane k ≡ true
      → k.encrypted_blob ≡ some b
      → unpack_sane blake k cb ≡ unpack_key blake k b cb
  unfolding unpack_sane
  unpack_sane-unpack_key k b cb s e = ground arith

  -- A key that was read, with a name of the derivation that is not its own.
  pub load_of_key :
      (lines : List Bytes) (k : PrivateKey) (b : Bytes) (cb : PasswordCb)
      → read_key lines ≡ some k
      → k.version ≡ 1
      → k.encrypted_blob ≡ some b
      → names_pbkdf k.pbkdf_alg ≡ false
      → private_data_load blake lines cb ≡ unpack_key blake k b cb
  unfolding private_data_load
  load_of_key lines k b cb r v e n =
      rw (r, private_data_load) (unpack_sane-unpack_key k b cb (is_sane_lem k b v e n) e)

-- A secret key of version 1 without a password, with 64 bytes of data and an identifier of 8 bytes
-- or none, is printed, and what is printed is loaded as the same data and identifier, whatever the
-- callback for the password.
pub private_data_load-privkey_write :
    (blake : Blake2b) (k : PrivateKey) (b : Bytes) (cb : PasswordCb)
    → IsWritable k b
    → k.pbkdf_alg ≡ none
    → (text : Bytes) × (privkey_write k ≡ wrote text)
      × (private_data_load blake (getlines text) cb
          ≡ loaded (record { data_bytes = b; id = k.id; version = 1 }))
private_data_load-privkey_write blake k b cb w p =
    let plain = record no_key { version = 1; encrypted_blob = some b; id = k.id } in
    (
      header b k.id [],
      write_fields-header k b [] w (unfold kdf_out in rw p refl),
      load_of_key blake (getlines (header b k.id [])) plain b cb
            (unfold parse_lines getlines in
              read_key-header b k.id [] w.blob_bytes w.blob_len w.id_is)
            refl refl (unfold names_pbkdf in refl)
          ∙ unfold unpack_key in ap loaded (pkey_to_private_data_lem plain b w.id_is w.blob_len),
    )
