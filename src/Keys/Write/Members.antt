-- ===== src/Keys/Write/Members.antt =====
-- The lines that `asignify_privkey_write` may print, each with the member it is read into.
use asignify.Base.{ℕ, ◌<◌, ◌≡◌, refl, ◌^◌, arith, some, Bytes, IsBytes, codes, length}
use asignify.Libc.{isgraph}
use asignify.Libc.Decimal.{decimal}
use asignify.Util.Hex.{hex_digits}
use asignify.Data.{PrivateKey}
use asignify.Keys.Fields.{
  FieldType, Member, field, find_field, stored_string, set_bytes, set_uint, strncmp,
}
use asignify.Keys.Load.{pbkdf_alg_name}
use asignify.Keys.Write.{value_line}
use asignify.Keys.Write.Fields.{Stores, Stores-hex, Stores-uint, Stores-string}

found_version :
    find_field (codes "version") ≡ some (field (codes "version") FieldType.uint Member.version 0)
unfolding find_field strncmp
found_version = refl

found_data :
    find_field (codes "data") ≡ some (field (codes "data") FieldType.hex Member.encrypted_blob 64)
unfolding find_field strncmp
found_data = refl

found_id : find_field (codes "id") ≡ some (field (codes "id") FieldType.hex Member.id 8)
unfolding find_field strncmp
found_id = refl

found_kdf :
    find_field (codes "kdf") ≡ some (field (codes "kdf") FieldType.string Member.pbkdf_alg 0)
unfolding find_field strncmp
found_kdf = refl

found_rounds :
    find_field (codes "rounds") ≡ some (field (codes "rounds") FieldType.uint Member.rounds 0)
unfolding find_field strncmp
found_rounds = refl

found_salt : find_field (codes "salt") ≡ some (field (codes "salt") FieldType.hex Member.salt 16)
unfolding find_field strncmp
found_salt = refl

found_checksum :
    find_field (codes "checksum") ≡ some (field (codes "checksum") FieldType.hex Member.checksum 64)
unfolding find_field strncmp
found_checksum = refl

pub version_line :
    (k : PrivateKey)
    → Stores k (value_line (codes "version") (decimal 1)) (record k { version = 1 })
unfolding set_uint
version_line k =
    Stores-uint (codes "version") 1 (field (codes "version") FieldType.uint Member.version 0) k
      (omega arith) (unfold isgraph in ground arith) found_version refl (omega arith)

pub data_line :
    (k : PrivateKey) (b : Bytes)
    → IsBytes b
    → length b ≡ 64
    → Stores k (value_line (codes "data") (hex_digits b)) (record k { encrypted_blob = some b })
unfolding set_bytes
data_line k b h e =
    Stores-hex (codes "data") b (field (codes "data") FieldType.hex Member.encrypted_blob 64) k
      (omega arith) (unfold isgraph in ground arith) found_data refl (omega arith) h e

pub id_line :
    (k : PrivateKey) (b : Bytes)
    → IsBytes b
    → length b ≡ 8
    → Stores k (value_line (codes "id") (hex_digits b)) (record k { id = some b })
unfolding set_bytes
id_line k b h e =
    Stores-hex (codes "id") b (field (codes "id") FieldType.hex Member.id 8) k (omega arith)
      (unfold isgraph in ground arith) found_id refl (omega arith) h e

pub salt_line :
    (k : PrivateKey) (b : Bytes)
    → IsBytes b
    → length b ≡ 16
    → Stores k (value_line (codes "salt") (hex_digits b)) (record k { salt = some b })
unfolding set_bytes
salt_line k b h e =
    Stores-hex (codes "salt") b (field (codes "salt") FieldType.hex Member.salt 16) k (omega arith)
      (unfold isgraph in ground arith) found_salt refl (omega arith) h e

pub checksum_line :
    (k : PrivateKey) (b : Bytes)
    → IsBytes b
    → length b ≡ 64
    → Stores k (value_line (codes "checksum") (hex_digits b)) (record k { checksum = some b })
unfolding set_bytes
checksum_line k b h e =
    Stores-hex (codes "checksum") b (field (codes "checksum") FieldType.hex Member.checksum 64) k
      (omega arith) (unfold isgraph in ground arith) found_checksum refl (omega arith) h e

pub rounds_line :
    (k : PrivateKey) (n : ℕ)
    → n < 2 ^ 32
    → Stores k (value_line (codes "rounds") (decimal n)) (record k { rounds = n })
unfolding set_uint
rounds_line k n h =
    Stores-uint (codes "rounds") n (field (codes "rounds") FieldType.uint Member.rounds 0) k
      (omega arith) (unfold isgraph in ground arith) found_rounds refl h

pub kdf_line :
    (k : PrivateKey)
    → Stores k
        (value_line (codes "kdf") pbkdf_alg_name)
        (record k { pbkdf_alg = some (stored_string pbkdf_alg_name) })
unfolding set_bytes
kdf_line k =
    Stores-string (codes "kdf") pbkdf_alg_name
      (field (codes "kdf") FieldType.string Member.pbkdf_alg 0) k (omega arith) (omega arith)
      (unfold isgraph in ground arith) found_kdf refl (unfold isgraph in ground arith)
