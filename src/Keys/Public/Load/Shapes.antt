-- ===== src/Keys/Public/Load/Shapes.antt =====
-- What a public key that is loaded can be.
use asignify.Base.{
  ltb, starts_with, false, ℕ, zero, suc, ◌-◌, ◌&&◌, ◌==◌, bytes_eq, ◌≡◌, refl, arith, true, Bool,
  Bool-cases, inl, inr, Option, none, some, List, [], ◌∷◌,
}
use asignify.Base.{Bytes, length, take, drop, length-take_le}
use asignify.Data.{PublicData}
use asignify.Crypto.Base64.{Base64}
use asignify.Keys.Public.{pubkey_magic, load_data, load_id, load_version, public_data_load}
use asignify.Keys.Ssh.{ssh_read_string}
use asignify.Keys.Public.Load.{
  Junk, alloc_aux, ssh_made, unless_read, obsd_alg, obsd_comment, ssh_magic, obsd_key, try_obsd,
  pubkey_try_obsd, ssh_point, ssh_alg, ssh_blob, ssh_text, try_ssh, pubkey_line, pubkey_lines,
  pubkey_load,
}

-- A key of this program, of OpenBSD, or of OpenSSH.
pub data IsKey (pk : PublicData) : Type 0 where
  native : pk.version ≡ 1 → length pk.id ≡ 8 → length pk.data_bytes ≡ 32 → IsKey pk
  openbsd : pk.version ≡ 0 → length pk.id ≡ 8 → length pk.data_bytes ≡ 32 → IsKey pk
  openssh : pk.version ≡ 1 → pk.id ≡ [] → length pk.data_bytes ≡ 32 → IsKey pk

-- A predicate on what is there, if anything is.
abbrev IfSome {ℓ} : {A : Type ℓ} → (A → Type 0) → Option A → Type 0
IfSome P none = Unit
IfSome P (some a) = P a

-- The version, and the lengths of the two parts.
abbrev pub HasLengths : ℕ → ℕ → ℕ → PublicData → Type 0
HasLengths version id_len data_len pk =
    (pk.version ≡ version) × (length pk.id ≡ id_len) × (length pk.data_bytes ≡ data_len)

load_data-lengths :
    (b64 : Base64) (version data_len : ℕ) (id : Bytes) (p : Option Bytes) {pk : PublicData}
    → load_data b64 version data_len id p ≡ some pk
    → HasLengths version (length id) data_len pk
unfolding load_data
load_data-lengths b64 version data_len id none e = cc
load_data-lengths b64 version data_len id (some p) {pk} e = ground arith

load_id-lengths :
    (b64 : Base64) (version id_len data_len : ℕ) (text : Bytes) {pk : PublicData}
    → load_id b64 version id_len data_len text ≡ some pk
    → HasLengths version id_len data_len pk
unfolding load_id
load_id-lengths b64 version id_len data_len text {pk} e =
    ground (arith, load_data-lengths b64 version data_len)

load_version-lengths :
    (b64 : Base64) (version id_len data_len : ℕ) (text : Bytes) {pk : PublicData}
    → load_version b64 version 1 1 id_len data_len text ≡ some pk
    → HasLengths 1 id_len data_len pk
unfolding load_version
load_version-lengths b64 version id_len data_len [] {pk} e = cc
load_version-lengths b64 version id_len data_len (c ∷ text) {pk} e =
    ground (arith, load_id-lengths b64 version id_len data_len text)

public_data_load-lengths :
    (b64 : Base64) (buf magic : Bytes) (id_len data_len : ℕ) {pk : PublicData}
    → public_data_load b64 buf magic 1 1 id_len data_len ≡ some pk
    → HasLengths 1 id_len data_len pk
unfolding public_data_load
public_data_load-lengths b64 buf magic id_len data_len {pk} e =
    ground (arith, load_version-lengths b64)

length-drop : (n : ℕ) (b : Bytes) → length (drop n b) ≡ length b - n
length-drop zero b = omega arith
length-drop (suc n) [] = omega arith
length-drop (suc n) (x ∷ b) = omega (arith, length-drop n b)

obsd_key-IsKey :
    (o : Option Bytes) (res : Option PublicData)
    → IfSome IsKey res
    → IfSome IsKey (obsd_key 32 o res)
unfolding obsd_key
obsd_key-IsKey none res h = h
obsd_key-IsKey (some b) res h = elim (Bool-cases (length b == 42 && bytes_eq (take 2 b) obsd_alg)) [
  | inl good ↦
      let len : length b ≡ 42 = ground arith in
      rw (good, obsd_key)
        (openbsd refl
          (omega
            (arith, length-drop 2 b, length-take_le 8 (drop 2 b) (omega (arith, length-drop 2 b))))
          (omega (
            arith,
            length-drop 10 b,
            length-take_le 32 (drop 10 b) (omega (arith, length-drop 10 b)),
          )))
  | inr bad ↦ rw (bad, obsd_key) h
]

-- The key of a line that was read without an `abort`.
abbrev IfKey : Option (Bool × Option PublicData) → Type 0
IfKey none = Unit
IfKey (some r) = IfSome IsKey r.1

module _ (junk : Junk) (res : Option PublicData) (h : IfSome IsKey res) where
  ssh_made-IsKey :
      (tok : Bytes) (o : Option (Option Bytes)) → length tok ≡ 32 → IfKey (ssh_made tok o)
  unfolding ssh_made
  ssh_made-IsKey tok none l = tt
  ssh_made-IsKey tok (some aux) l = openssh refl refl l

  ssh_point-IsKey : (o : Option (Bytes × Bytes)) → IfKey (ssh_point junk o res)
  unfolding ssh_point
  ssh_point-IsKey none = h
  ssh_point-IsKey (some (tok, rest)) = elim (Bool-cases (length tok == 32)) [
    | inl whole ↦ rw whole (ssh_made-IsKey tok (alloc_aux junk) (ground arith))
    | inr other ↦ rw other h
  ]

  ssh_alg-IsKey : (o : Option (Bytes × Bytes)) → IfKey (ssh_alg junk o res)
  unfolding ssh_alg
  ssh_alg-IsKey none = h
  ssh_alg-IsKey (some (tok, rest)) = elim (Bool-cases (bytes_eq tok ssh_magic)) [
    | inl same ↦ rw same (ssh_point-IsKey (ssh_read_string rest))
    | inr other ↦ rw other h
  ]

  ssh_blob-IsKey : (o : Option Bytes) → IfKey (ssh_blob junk o res)
  unfolding ssh_blob
  ssh_blob-IsKey none = h
  ssh_blob-IsKey (some []) = h
  ssh_blob-IsKey (some (x ∷ b)) = ssh_alg-IsKey (ssh_read_string (x ∷ b))

  ssh_text-IsKey : (b64 : Base64) (text : Bytes) → IfKey (ssh_text b64 junk text res)
  unfolding ssh_text
  ssh_text-IsKey b64 [] = h
  ssh_text-IsKey b64 (c ∷ p) = elim (Bool-cases (c == b' ')) [
    | inl space ↦ rw space (ssh_blob-IsKey (b64.pton_space 64 p))
    | inr other ↦ rw other h
  ]

  pubkey_try_obsd-IsKey : (b64 : Base64) (l : Bytes) → IfSome IsKey (pubkey_try_obsd b64 l res).1
  unfolding pubkey_try_obsd try_obsd
  pubkey_try_obsd-IsKey b64 l = elim (Bool-cases (starts_with obsd_comment l)) [
    | inl comment ↦ rw comment h
    | inr key ↦ rw key (obsd_key-IsKey (b64.pton 42 l) res h)
  ]

  unless_read-IsKey : (o : Option (Bool × Option PublicData)) → IfKey o → IfKey (unless_read o)
  unfolding unless_read
  unless_read-IsKey none k = tt
  unless_read-IsKey (some r) k = k

  pubkey_line-IsKey :
      (b64 : Base64) (first : Bool) (l : Bytes) → IfKey (pubkey_line b64 junk first l res)
  unfolding pubkey_line try_ssh
  pubkey_line-IsKey b64 first l =
      elim (Bool-cases (ltb 17 (length l) && first && starts_with pubkey_magic l)) [
        | inl ours ↦ rw ours (native_key (public_data_load b64 l pubkey_magic 1 1 8 32) refl)
        | inr other ↦ elim (Bool-cases (ltb 12 (length l) && starts_with ssh_magic l)) [
          | inl ssh ↦
              rw (other, ssh)
                (unless_read-IsKey (ssh_text b64 junk (drop 11 l) res)
                  (ssh_text-IsKey b64 (drop 11 l)))
          | inr plain ↦ rw (other, plain) (pubkey_try_obsd-IsKey b64 l)
        ]
      ]
    where
      native_key :
          (o : Option PublicData)
          → public_data_load b64 l pubkey_magic 1 1 8 32 ≡ o
          → IfSome IsKey o
      native_key none e = tt
      native_key (some pk) e =
          let (version, id_len, data_len) = public_data_load-lengths b64 l pubkey_magic 8 32 e in
          native version id_len data_len

pubkey_lines-IsKey :
    (b64 : Base64) (junk : Junk) (first : Bool) (res : Option PublicData) (lines : List Bytes)
    → IfSome IsKey res
    → IfSome (IfSome IsKey) (pubkey_lines b64 junk first res lines)
unfolding pubkey_lines
pubkey_lines-IsKey b64 junk first res [] h = h
pubkey_lines-IsKey b64 junk first res (l ∷ ls) h =
    go (pubkey_line b64 junk first l res) (λ key k. pubkey_lines-IsKey b64 junk false key ls k)
      (pubkey_line-IsKey junk res h b64 first l) refl
  where
    go :
        (o : Option (Bool × Option PublicData))
        → ((key : Option PublicData)
            → IfSome IsKey key
            → IfSome (IfSome IsKey) (pubkey_lines b64 junk false key ls))
        → IfKey o
        → pubkey_line b64 junk first l res ≡ o
        → IfSome (IfSome IsKey) (pubkey_lines b64 junk first res (l ∷ ls))
    go none others k e = rw (e, pubkey_lines) tt
    go (some (true, key)) others k e = rw (e, pubkey_lines) (others key k)
    go (some (false, key)) others k e = rw (e, pubkey_lines) k

-- A public key that is loaded is one of this program, with version 1 and an identifier of 8 bytes,
-- of OpenBSD, with version 0 and one of 8 bytes, or of OpenSSH, with version 1 and none, and it has
-- 32 bytes of data, whatever the lines of the file are.
pub pubkey_load-IsKey :
    (b64 : Base64) (junk : Junk) (lines : List Bytes) (pk : PublicData)
    → pubkey_load b64 junk lines ≡ some (some pk)
    → IsKey pk
unfolding pubkey_load
pubkey_load-IsKey b64 junk lines pk e = rw e at (pubkey_lines-IsKey b64 junk true none lines tt)
