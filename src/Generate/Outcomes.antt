-- ===== src/Generate/Outcomes.antt =====
-- All that `asignify_generate` can end with.
use asignify.Base.{ℕ, ◌<◌, ◌≡◌, Bool, true, false, Option, none, some, []}
use asignify.Base.{Bytes, ◌==◌}
use asignify.Libc.Lines.{getlines}
use asignify.Util.Digest.{Hashes}
use asignify.Crypto.{Blake2b}
use asignify.Crypto.Base64.{Base64}
use asignify.Crypto.Ed25519.{Ed25519}
use asignify.Keys.Load.{
  loaded, PasswordCb, private_data_load, pbkdf_minrounds, accepted_password, has,
}
use asignify.Keys.Public.Load.{Junk, pubkey_load}
use asignify.Keys.Signature.{public_key}
use asignify.Generate.{Seed, Generated, generated}

-- Why nothing is tried: the version, a file that cannot be opened, or too few rounds for a password.
pub data IsBadCall (version rounds : ℕ) (cb : PasswordCb) (priv_opens pub_opens : Bool)
    : Type 0 where
  other_version : (version == 1) ≡ false → IsBadCall version rounds cb priv_opens pub_opens
  no_priv : priv_opens ≡ false → IsBadCall version rounds cb priv_opens pub_opens
  no_pub : pub_opens ≡ false → IsBadCall version rounds cb priv_opens pub_opens
  few_rounds :
      has cb ≡ true → rounds < pbkdf_minrounds → IsBadCall version rounds cb priv_opens pub_opens

-- No file, or an empty one.
pub data IsHollow (file : Option Bytes) : Type 0 where
  absent : file ≡ none → IsHollow file
  empty : file ≡ some [] → IsHollow file

module _ {h : Hashes} (ed : Ed25519 h) (blake : Blake2b) (b64 : Base64) (junk : Junk)
    (s : Seed) where
  -- A pair of keys that is loaded again; a password that is refused, with two empty files and true; a
  -- call that is no good, with no more than empty files and false.
  pub data Outcome (version rounds : ℕ) (cb : PasswordCb) (priv_opens pub_opens : Bool)
      (g : Generated) : Type 0 where
    makes_pair :
        (text public : Bytes)
        → g ≡ generated true (some text) (some public)
        → private_data_load blake (getlines text) cb
          ≡ loaded (record { data_bytes = s.sk; id = some s.id; version = 1 })
        → pubkey_load b64 junk (getlines public) ≡ some (some (public_key ed s.sk s.id))
        → Outcome version rounds cb priv_opens pub_opens g
    no_password :
        (r : Option Bytes)
        → cb ≡ some r
        → accepted_password r ≡ none
        → g ≡ generated true (some []) (some [])
        → Outcome version rounds cb priv_opens pub_opens g
    bad_call :
        (priv public : Option Bytes)
        → IsBadCall version rounds cb priv_opens pub_opens
        → IsHollow priv
        → IsHollow public
        → g ≡ generated false priv public
        → Outcome version rounds cb priv_opens pub_opens g
