-- ===== src/Verify/Context/Signing.antt =====
-- What a sign context writes is loaded by a verify context, which then accepts the files.
use asignify.Base.{
  ℕ, ◌^◌, ◌≤◌, ◌<◌, ◌≡◌, refl, arith, true, false, Option, some, List, [], ◌∷◌, ◌++◌,
}
use asignify.Base.{Bytes, IsBytes, All, ltb, ◌==◌, length}
use asignify.Libc.Lines.{getlines, concat-getlines}
use asignify.Util.Errors.{Error}
use asignify.Util.Digest.{DigestType, Hashes}
use asignify.Util.Disk.{Disk}
use asignify.Data.{File, PublicData}
use asignify.Crypto.Base64.{Base64}
use asignify.Crypto.Ed25519.{Ed25519}
use asignify.Keys.Public.Load.{signature_load}
use asignify.Keys.Public.Load.Formats.{signature_load-signature_write}
use asignify.Keys.Public.RoundTrip.{IsPublic}
use asignify.Keys.Signature.{
  check_signature, public_key, signature_of, uint_bytes, check_signature-signature_of,
}
use asignify.Sign.Context.{SignCtx, write_signature, finished}
use asignify.Sign.Context.RoundTrip.{write_signature-signature_write}
use asignify.Sign.Files.{added, add_files}
use asignify.Sign.Lines.{ok, file_lines}
use asignify.SignVerify.Recorded.{IsDisk}
use asignify.SignVerify.Accepts.{verify_file-add_files}
use asignify.Verify.Files.{FileTable}
use asignify.Verify.Machine.{parse_files}
use asignify.Verify.Machine.Reach.{IsName}
use asignify.Verify.Check.{accepted, verify_file}
use asignify.Verify.Context.{
  VerifyCtx, load_sig, check_with, check_chain, with_parsed, with_text, with_sig_file, with_chain,
  verify_load_signature, with_verdict, verify_one,
}

module _ {h : Hashes} (ed : Ed25519 h) (b64 : Base64) where
  load_sig_small :
      (ctx : VerifyCtx) (file rest : Bytes) (size : ℕ)
      → size ≤ 2 ^ 30
      → load_sig ctx (record { text = file; stat_ok = true; is_reg = true; st_size = size }) rest
        ≡ (some rest, ctx)
  unfolding load_sig
  load_sig_small ctx file rest size s =
      let fits : ltb (2 ^ 30) size ≡ false = ground arith in rw (fits, load_sig) refl

  with_text-accepted :
      (old : Option FileTable) (err : Option Error) (pk sig : PublicData) (text : Bytes)
      (files : FileTable)
      → 0 < length text
      → check_signature ed pk sig text ≡ true
      → parse_files [] text ≡ some (record { accepted = true; bad_format = false; files = files })
      → with_text ed
          (record { pk_chain = pk ∷ []; files = old; error = err })
          (some sig)
          (some text)
        ≡ some (true, record { pk_chain = pk ∷ []; files = some files; error = err })
  unfolding with_text check_chain check_with with_parsed
  with_text-accepted old err pk sig text files t c p =
      let full : (length text == 0) ≡ false = ground arith in
      rw (full, with_text, c, check_chain, check_with, p, with_parsed) refl

  -- A signature of the only key, over a text that the parser accepts.
  verify_load_signature-accepted :
      (old : Option FileTable) (err : Option Error) (pk sig : PublicData) (file text : Bytes)
      (files : FileTable) (size : ℕ)
      → size ≤ 2 ^ 30
      → signature_load b64 (length pk.id) (getlines file) ≡ (some sig, getlines text)
      → 0 < length text
      → check_signature ed pk sig text ≡ true
      → parse_files [] text ≡ some (record { accepted = true; bad_format = false; files = files })
      → verify_load_signature ed b64
          (record { pk_chain = pk ∷ []; files = old; error = err })
          (some (record { text = file; stat_ok = true; is_reg = true; st_size = size }))
        ≡ some (true, record { pk_chain = pk ∷ []; files = some files; error = err })
  unfolding verify_load_signature with_chain with_sig_file
  verify_load_signature-accepted old err pk sig file text files size s l t c p =
      let ctx : VerifyCtx = record { pk_chain = pk ∷ []; files = old; error = err } in
      rw
        (
          l,
          verify_load_signature,
          with_chain,
          with_sig_file,
          concat-getlines text,
          load_sig_small ctx file text size s,
        )
        (with_text-accepted old err pk sig text files t c p)

  verify_one-accepted :
      (ctx : VerifyCtx) (disk : Disk) (calls : List (Bytes × DigestType))
      → All (λ c. verify_file h disk ctx.files c.0 ≡ accepted) calls
      → All (λ c. verify_one h ctx disk c.0 ≡ (true, ctx)) calls
  unfolding verify_one with_verdict
  verify_one-accepted ctx disk [] a = tt
  verify_one-accepted ctx disk (c ∷ calls) a =
      (rw (a.0, verify_one, with_verdict) refl, verify_one-accepted ctx disk calls a.1)

  -- A sign context with a key of version 1 and an identifier of 8 bytes, to which files of a disk
  -- were added with names that the format can hold, and whose lines can be printed, writes a
  -- signature. A verify context whose only key is the public key of the signer loads that file if
  -- its size is at most 1 GiB, and then accepts every one of the files on the same disk.
  pub verify_one-write_signature :
      (disk : Disk) (calls : List (Bytes × DigestType)) (ctx : SignCtx) (sk i text : Bytes)
      (f : File) (fs : List File) (old : Option FileTable) (err : Option Error) (size : ℕ)
      → IsDisk disk
      → All (λ c. IsName c.0) calls
      → add_files h disk [] calls ≡ added (f ∷ fs)
      → file_lines (f ∷ fs) ≡ ok text
      → 0 < length text
      → ctx.privk ≡ some (record { data_bytes = sk; id = some i; version = 1 })
      → ctx.files ≡ f ∷ fs
      → IsBytes i
      → length i ≡ 8
      → size ≤ 2 ^ 30
      → (file : Bytes) × (after : VerifyCtx) × (write_signature ed b64 true ctx ≡ finished file)
        × (verify_load_signature ed b64
              (record { pk_chain = public_key ed sk i ∷ []; files = old; error = err })
              (some (record { text = file; stat_ok = true; is_reg = true; st_size = size }))
            ≡ some (true, after))
        × All (λ c. verify_one h after disk c.0 ≡ (true, after)) calls
  verify_one-write_signature disk calls ctx sk i text f fs old err size d n a t some_text k files b
        l s =
      let (table, parsed, accepts) = verify_file-add_files h disk calls d n a t in
      let after : VerifyCtx = record {
        pk_chain = public_key ed sk i ∷ [];
        files = some table;
        error = err;
      } in
      let sig = signature_of ed sk i text in
      let (file, writes, reads) =
        signature_load-signature_write b64 sig text is_public l
          (ed.length-sign sk (uint_bytes 1 ++ text)) some_text in
      let good = check_signature-signature_of ed sk i text in
      (
        file,
        after,
        write_signature-signature_write ed b64 ctx sk i text f fs k files t writes,
        verify_load_signature-accepted old err (public_key ed sk i) sig file text table size s
            (rw l reads) some_text good parsed,
        verify_one-accepted after disk calls accepts,
      )
    where
      is_public : IsPublic (signature_of ed sk i text)
      is_public = record {
        version_is = refl;
        no_aux = refl;
        id_bytes = b;
        data_bytes_are = ed.sign-IsBytes sk (uint_bytes 1 ++ text);
      }
