-- ===== src/Tests/Loading.antt =====
-- Runs of the loading of public keys and signatures.
use asignify.Base.{◌≡◌, arith, some, [], ◌∷◌, ◌++◌, Bytes, codes}
use asignify.Libc.Lines.{getlines}
use asignify.Keys.Public.{pubkey_write, signature_write}
use asignify.Keys.Public.Load.{no_junk, pubkey_load, signature_load, obsd_comment}
use asignify.Keys.Public.Load.Shapes.{IsKey, pubkey_load-IsKey}
use asignify.Keys.Public.Load.Formats.{pubkey_load-pubkey_write, signature_load-signature_write}
use asignify.Keys.Public.Load.Others.{
  SshOutcome, obsd_text, obsd_data, ssh_key_line, pubkey_load_openbsd, signature_load_openbsd,
  pubkey_load_openssh,
}
use asignify.Keys.Write.{wrote}
use asignify.Tests.Toys.{repeat, length-repeat, repeat-IsBytes}
use asignify.Tests.Public.{toy_base64, toy_public, toy_public-IsPublic}

pubkey_load-pubkey_write_example :
    (text : Bytes) × (pubkey_write toy_base64 (toy_public 32) ≡ wrote text)
    × (pubkey_load toy_base64 no_junk (getlines (text ++ codes "more\n"))
        ≡ some (some (toy_public 32)))
pubkey_load-pubkey_write_example =
    pubkey_load-pubkey_write toy_base64 no_junk (toy_public 32) (codes "more\n")
      (toy_public-IsPublic 32) (length-repeat 8 5) (length-repeat 32 7)

signature_load-signature_write_example :
    (file : Bytes) × (signature_write toy_base64 (toy_public 64) (codes "a\nb\n") ≡ wrote file)
    × (signature_load toy_base64 8 (getlines file)
        ≡ (some (toy_public 64), getlines (codes "a\nb\n")))
signature_load-signature_write_example =
    signature_load-signature_write toy_base64 (toy_public 64) (codes "a\nb\n")
      (toy_public-IsPublic 64) (length-repeat 8 5) (length-repeat 64 7) (omega arith)

pubkey_load_openbsd_example :
    pubkey_load toy_base64 no_junk
      ((obsd_comment ++ codes "key\n") ∷ obsd_text toy_base64 (repeat 8 3) (repeat 32 9) ∷ [])
    ≡ some (some (obsd_data (repeat 8 3) (repeat 32 9)))
pubkey_load_openbsd_example =
    pubkey_load_openbsd toy_base64 no_junk (codes "key\n") (repeat 8 3) (repeat 32 9) []
      (length-repeat 8 3) (length-repeat 32 9) (repeat-IsBytes 8 3 (omega arith))
      (repeat-IsBytes 32 9 (omega arith))

signature_load_openbsd_example :
    signature_load toy_base64 8 (
      (obsd_comment ++ codes "sig\n")
      ∷ obsd_text toy_base64 (repeat 8 3) (repeat 64 9)
      ∷ codes "SIZE (a) = 3\n"
      ∷ [])
    ≡ (some (obsd_data (repeat 8 3) (repeat 64 9)), codes "SIZE (a) = 3\n" ∷ [])
signature_load_openbsd_example =
    signature_load_openbsd toy_base64 8 (codes "sig\n") (repeat 8 3) (repeat 64 9)
      (codes "SIZE (a) = 3\n" ∷ []) (length-repeat 8 3) (length-repeat 64 9)
      (repeat-IsBytes 8 3 (omega arith)) (repeat-IsBytes 64 9 (omega arith))

pubkey_load_openssh_example :
    SshOutcome no_junk
      (repeat 32 9)
      (pubkey_load toy_base64 no_junk (ssh_key_line toy_base64 (repeat 32 9) (codes "me\n") ∷ []))
pubkey_load_openssh_example =
    pubkey_load_openssh toy_base64 no_junk (repeat 32 9) (codes "me\n") [] (length-repeat 32 9)
      (repeat-IsBytes 32 9 (omega arith))

pubkey_load-IsKey_example : IsKey (obsd_data (repeat 8 3) (repeat 32 9))
pubkey_load-IsKey_example =
    pubkey_load-IsKey toy_base64 no_junk
      ((obsd_comment ++ codes "key\n") ∷ obsd_text toy_base64 (repeat 8 3) (repeat 32 9) ∷ [])
      (obsd_data (repeat 8 3) (repeat 32 9)) openbsd_run
  where
    openbsd_run :
        pubkey_load toy_base64 no_junk
          ((obsd_comment ++ codes "key\n") ∷ obsd_text toy_base64 (repeat 8 3) (repeat 32 9) ∷ [])
        ≡ some (some (obsd_data (repeat 8 3) (repeat 32 9)))
    openbsd_run =
        pubkey_load_openbsd toy_base64 no_junk (codes "key\n") (repeat 8 3) (repeat 32 9) []
          (length-repeat 8 3) (length-repeat 32 9) (repeat-IsBytes 8 3 (omega arith))
          (repeat-IsBytes 32 9 (omega arith))
