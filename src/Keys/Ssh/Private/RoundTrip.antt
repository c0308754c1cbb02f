-- ===== src/Keys/Ssh/Private/RoundTrip.antt =====
-- A secret key in the format of OpenSSH is read.
use asignify.Base.{◌<◌, ◌≡◌, ◌≢◌, refl, arith, Bool, true, false, some, List, [], ◌∷◌, ◌++◌}
use asignify.Base.{Bytes, All, codes, leb, length, length-append, starts_with, starts_with-append}
use asignify.Util.Digest.Chunks.{concat}
use asignify.Crypto.Base64.{Base64}
use asignify.Keys.Load.{loaded}
use asignify.Keys.Public.Load.{ssh_magic}
use asignify.Keys.Signature.{drop-append_le}
use asignify.Keys.Ssh.{ssh_read_string_short}
use asignify.Keys.Ssh.Private.{
  ssh_privkey_start, ssh_privkey_end, ssh_privkey_magic, ssh_lines, ssh_token, skip_numbers,
  is_cipher_none, is_ssh_ed25519, has_length, ssh_private_part, ssh_key_part, with_secret,
  ssh_decoded, ssh_data, ssh_privkey_load,
}

-- A string of less than 256 bytes behind its length, in front of `rest`.
abbrev pub ssh_string : Bytes → Bytes → Bytes
ssh_string s rest = 0 ∷ 0 ∷ 0 ∷ length s ∷ (s ++ rest)

-- The contents of a file: the cipher and the derivation are `none`, `options` and `numbers` are
-- three numbers each, and `comment` is what stands behind the secret key.
pub record SshKey : Type 0 where
  pub pk : Bytes
  pub sk : Bytes
  pub options : Bytes
  pub numbers : Bytes
  pub comment : Bytes

abbrev pub private_part : SshKey → Bytes
private_part k = k.numbers ++ ssh_string ssh_magic (ssh_string k.pk (ssh_string k.sk k.comment))

abbrev pub key_part : SshKey → Bytes
key_part k = ssh_string (codes "none") (
    ssh_string (codes "none")
      (k.options ++ ssh_string ssh_magic (ssh_string k.pk (private_part k))))

abbrev pub openssh_key : SshKey → Bytes
openssh_key k = ssh_privkey_magic ++ key_part k

pub record IsSshKey (k : SshKey) : Type 0 where
  pub pk_len : length k.pk ≡ 32
  pub sk_len : length k.sk ≡ 64
  pub options_len : length k.options ≡ 12
  pub numbers_len : length k.numbers ≡ 12

ssh_token-ssh_string :
    (test : Bytes → Bool) (s rest : Bytes)
    → length s < 256
    → test s ≡ true
    → ssh_token test (ssh_string s rest) ≡ some (s, rest)
unfolding ssh_token
ssh_token-ssh_string test s rest l t = rw (ssh_read_string_short s rest l, ssh_token, t) refl

skip_numbers-append :
    (n rest : Bytes) → length n ≡ 12 → 0 < length rest → skip_numbers (n ++ rest) ≡ some rest
unfolding skip_numbers
skip_numbers-append n rest l r =
    let more : leb (length (n ++ rest)) 12 ≡ false = ground (arith, length-append n rest) in
    rw (more, skip_numbers, drop-append_le 12 n rest l) refl

module _ (k : SshKey) (w : IsSshKey k) where
  has_pk : has_length 32 k.pk ≡ true
  has_pk = ground (arith, w.pk_len)

  has_sk : has_length 64 k.sk ≡ true
  has_sk = ground (arith, w.sk_len)

  alg_token :
      (rest : Bytes) → ssh_token is_ssh_ed25519 (ssh_string ssh_magic rest) ≡ some (ssh_magic, rest)
  alg_token rest =
      ssh_token-ssh_string is_ssh_ed25519 ssh_magic rest (omega arith) (unfold starts_with in refl)

  none_token :
      (rest : Bytes)
      → ssh_token is_cipher_none (ssh_string (codes "none") rest) ≡ some (codes "none", rest)
  none_token rest =
      ssh_token-ssh_string is_cipher_none (codes "none") rest (omega arith)
        (unfold starts_with in refl)

  pk_token : (rest : Bytes) → ssh_token (has_length 32) (ssh_string k.pk rest) ≡ some (k.pk, rest)
  pk_token rest = ssh_token-ssh_string (has_length 32) k.pk rest (rw w.pk_len (omega arith)) has_pk

  sk_token : (rest : Bytes) → ssh_token (has_length 64) (ssh_string k.sk rest) ≡ some (k.sk, rest)
  sk_token rest = ssh_token-ssh_string (has_length 64) k.sk rest (rw w.sk_len (omega arith)) has_sk

  ssh_private_part_lem : ssh_private_part (private_part k) ≡ some k.sk
  unfolding ssh_private_part
  ssh_private_part_lem =
      let secret = ssh_string k.sk k.comment in
      let public = ssh_string k.pk secret in
      rw
        (
          skip_numbers-append k.numbers (ssh_string ssh_magic public) w.numbers_len (omega arith),
          ssh_private_part,
          alg_token public,
          pk_token secret,
          sk_token k.comment,
        )
        refl

  ssh_key_part_lem : ssh_key_part (key_part k) ≡ some k.sk
  unfolding ssh_key_part
  ssh_key_part_lem =
      let public = ssh_string k.pk (private_part k) in
      let named = ssh_string ssh_magic public in
      rw
        (
          none_token (ssh_string (codes "none") (k.options ++ named)),
          ssh_key_part,
          none_token (k.options ++ named),
          skip_numbers-append k.options named w.options_len (omega arith),
          alg_token public,
          pk_token (private_part k),
        )
        ssh_private_part_lem

ssh_lines-append :
    (text more : List Bytes) (end : Bytes)
    → All (λ l. starts_with ssh_privkey_end l ≡ false) text
    → ssh_lines (text ++ (ssh_privkey_end ++ end) ∷ more) ≡ some text
unfolding ssh_lines
ssh_lines-append [] more end h = rw (starts_with-append ssh_privkey_end end, ssh_lines) refl
ssh_lines-append (l ∷ text) more end h =
    rw (h.0, ssh_lines, ssh_lines-append text more end h.1) refl

ssh_data_text :
    (b64 : Base64) (beyond : Bytes) (text : List Bytes)
    → text ≢ []
    → ssh_data b64 beyond (some text)
      ≡ ssh_decoded (b64.pton (length (concat text)) (concat text ++ beyond))
unfolding ssh_data
ssh_data_text b64 beyond [] t = absurd (t refl)
ssh_data_text b64 beyond (l ∷ ls) t = refl

-- A file with the line that opens a key, the lines of its text, one at least, and the line that closes it is
-- loaded as the secret key of 64 bytes that it holds, of version 1 and with no identifier, if
-- `b64_pton` decodes those lines, together with what the memory behind them holds, to the contents
-- of an OpenSSH key without a password, whatever the numbers and the comment in it are.
pub ssh_privkey_load_openssh :
    (b64 : Base64) (beyond start end : Bytes) (text more : List Bytes) (k : SshKey)
    → IsSshKey k
    → text ≢ []
    → All (λ l. starts_with ssh_privkey_end l ≡ false) text
    → b64.pton (length (concat text)) (concat text ++ beyond) ≡ some (openssh_key k)
    → ssh_privkey_load b64 beyond
        ((ssh_privkey_start ++ start) ∷ (text ++ (ssh_privkey_end ++ end) ∷ more))
      ≡ loaded (record { data_bytes = k.sk; id = some []; version = 1 })
unfolding ssh_privkey_load ssh_decoded with_secret
ssh_privkey_load_openssh b64 beyond start end text more k w t h d =
    rw
      (
        starts_with-append ssh_privkey_start start,
        ssh_privkey_load,
        ssh_lines-append text more end h,
        ssh_data_text b64 beyond text t,
        d,
        ssh_decoded,
        starts_with-append ssh_privkey_magic (key_part k),
        ssh_key_part_lem k w,
        with_secret,
      )
      refl
