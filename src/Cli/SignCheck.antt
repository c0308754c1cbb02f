-- ===== src/Cli/SignCheck.antt =====
-- The command `sign`, and then `check` with the file that it wrote.
use asignify.Base.{
  ℕ, ◌^◌, ◌≤◌, ◌<◌, ◌≡◌, refl, ap, ◌∙◌, arith, true, false, Option, none, some, List, [], ◌∷◌,
}
use asignify.Base.{Bytes, IsBytes, All, ◌==◌, length}
use asignify.Util.Digest.{DigestType, Hashes}
use asignify.Util.Disk.{Disk}
use asignify.Data.{File, PrivateData}
use asignify.Crypto.{Blake2b}
use asignify.Crypto.Base64.{Base64}
use asignify.Crypto.Ed25519.{Ed25519}
use asignify.Keys.Load.{loaded, private_data_load}
use asignify.Keys.Public.Load.{Junk, pubkey_load}
use asignify.Keys.Signature.{public_key}
use asignify.Sign.Files.{added, add_files}
use asignify.Sign.Lines.{ok, file_lines}
use asignify.Sign.Context.{SignCtx, returns, with_key, load_privkey, finished, write_signature}
use asignify.SignVerify.Recorded.{IsDisk}
use asignify.Verify.Machine.Reach.{IsName}
use asignify.Verify.Context.{VerifyCtx, verify_init, verify_load_signature, verify_one}
use asignify.Verify.Context.Chain.{verify_load_pubkey-loaded}
use asignify.Verify.Context.Signing.{verify_one-write_signature}
use asignify.Cli.{done, Opt}
use asignify.Cli.Check.{World, check_files, with_signature, with_pubkey, loaded_then, cli_check}
use asignify.Cli.Sign.{
  SignWorld, output, SignOpts, sign_opts, default_digest, add_all, with_finished, write_added,
  sign_loaded, sign_args, cli_sign,
}
use asignify.Cli.Added.{adding, calls_of, All-calls_of, All-of_calls, add_all_counts}

check_files-done :
    (h : Hashes) (disk : Disk) (ctx : VerifyCtx) (names : List Bytes)
    → All (λ name. verify_one h ctx disk name ≡ (true, ctx)) names
    → check_files h disk ctx done names ≡ done
unfolding check_files
check_files-done h disk ctx [] a = refl
check_files-done h disk ctx (name ∷ names) a =
    rw (check_files, a.0) (check_files-done h disk ctx names a.1)

abbrev signer : Bytes → Bytes → List File → SignCtx
signer sk i files = record {
  privk = some (record { data_bytes = sk; id = some i; version = 1 });
  files = files;
  error = none;
}

module _ {h : Hashes} (ed : Ed25519 h) (blake : Blake2b) (b64 : Base64) where
  abbrev key_of : Bytes → Bytes → Option PrivateData
  key_of sk i = some (record { data_bytes = sk; id = some i; version = 1 })

  write_added-counted :
      (w : SignWorld) (sigfile : Bytes) (sk i file : Bytes) (files : List File) (m : ℕ)
      → 0 < m
      → write_signature ed b64 (w.opens sigfile) (signer sk i files) ≡ finished file
      → write_added ed blake b64 w sigfile (adding h w.disk (key_of sk i) none done files m)
        ≡ output done (some file)
  unfolding write_added with_finished
  write_added-counted w sigfile sk i file files m p f =
      let counted : (m == 0) ≡ false = ground arith in
      rw (write_added, counted, f, with_finished) refl

  sign_loaded-written :
      (w : SignWorld) (s : SignOpts) (dt : DigestType) (dts : List DigestType)
      (sigfile name : Bytes) (names : List Bytes) (sk i file : Bytes) (files : List File)
      → default_digest s.dt_list ≡ dt ∷ dts
      → add_files h w.disk [] (calls_of s.no_size (dt ∷ dts) (name ∷ names)) ≡ added files
      → write_signature ed b64 (w.opens sigfile) (signer sk i files) ≡ finished file
      → sign_loaded ed blake b64 w s sigfile (name ∷ names) (returns true (signer sk i []))
        ≡ output done (some file)
  unfolding sign_loaded
  sign_loaded-written w s dt dts sigfile name names sk i file files t a f =
      let (m, counted, ends) =
        add_all_counts h w.disk (key_of sk i) none done s.no_size dt dts name names [] files 0 a in
      ap
        (λ kinds. write_added ed blake b64 w sigfile (
          add_all h w.disk s.no_size kinds (adding h w.disk (key_of sk i) none done [] 0)
            (name ∷ names)))
        t
      ∙ ap (write_added ed blake b64 w sigfile) ends
      ∙ write_added-counted w sigfile sk i file files m counted f

  -- `sign` when the key is loaded, all the files can be added and the signature can be written.
  cli_sign-written :
      (w : SignWorld) (opts : List Opt) (s : SignOpts) (dt : DigestType) (dts : List DigestType)
      (seckeyfile sigfile name : Bytes) (names lines : List Bytes) (sk i file : Bytes)
      (files : List File)
      → sign_opts opts (record { no_size = false; dt_list = [] }) ≡ some s
      → default_digest s.dt_list ≡ dt ∷ dts
      → w.key_lines seckeyfile ≡ some lines
      → private_data_load blake lines (some w.password)
        ≡ loaded (record { data_bytes = sk; id = some i; version = 1 })
      → add_files h w.disk [] (calls_of s.no_size (dt ∷ dts) (name ∷ names)) ≡ added files
      → write_signature ed b64 (w.opens sigfile) (signer sk i files) ≡ finished file
      → cli_sign ed blake b64 w opts (seckeyfile ∷ sigfile ∷ name ∷ names) ≡ output done (some file)
  unfolding cli_sign sign_args load_privkey with_key
  cli_sign-written w opts s dt dts seckeyfile sigfile name names lines sk i file files o t k l a f =
      rw (o, k, cli_sign, sign_args, load_privkey, l, with_key)
        (sign_loaded-written w s dt dts sigfile name names sk i file files t a f)

  -- `check` when the key is loaded, the signature is verified and the files are accepted.
  cli_check-accepted :
      (v : World) (cmd pubkeyfile sigfile name : Bytes) (names lines : List Bytes) (sk i : Bytes)
      (after : VerifyCtx)
      → v.pubkeys pubkeyfile ≡ some lines
      → pubkey_load b64 v.junk lines ≡ some (some (public_key ed sk i))
      → verify_load_signature ed b64
          (record { pk_chain = public_key ed sk i ∷ []; files = none; error = none })
          (v.signatures sigfile)
        ≡ some (true, after)
      → All (λ n. verify_one h after v.disk n ≡ (true, after)) (name ∷ names)
      → cli_check ed b64 v (cmd ∷ pubkeyfile ∷ sigfile ∷ name ∷ names) ≡ some done
  unfolding cli_check loaded_then with_pubkey with_signature verify_init
  cli_check-accepted v cmd pubkeyfile sigfile name names lines sk i after k p s a =
      rw
        (
          k,
          cli_check,
          loaded_then,
          verify_load_pubkey-loaded b64 v.junk verify_init lines (public_key ed sk i) p,
          with_pubkey,
          s,
          with_signature,
        )
        (ap some (check_files-done h v.disk after (name ∷ names) a))

  -- On a disk whose files can be read again from the start and have sizes that fit: the options are
  -- good; the secret key is loaded with the password that is typed, and has an identifier of 8 bytes;
  -- the files that are named, one at least, can all be added with the digests of the options, have
  -- names that can stand in the format, and their lines are printed as a text that is not empty; and
  -- the file for the signature can be opened. Then `sign` succeeds and leaves a signature, and `check`
  -- succeeds for the same files on the same disk, with a file from which the public key of the signer
  -- is loaded, and a signature file of that text whose size is at most 1 GiB.
  pub cli_check-cli_sign :
      (w : SignWorld) (opts : List Opt) (s : SignOpts) (dt : DigestType) (dts : List DigestType)
      (cmd seckeyfile sigfile pubkeyfile name text : Bytes)
      (names seckey_lines pubkey_lines : List Bytes) (sk i : Bytes) (f : File) (fs : List File)
      (pubkeys : Bytes → Option (List Bytes)) (junk : Junk) (size : ℕ)
      → IsDisk w.disk
      → sign_opts opts (record { no_size = false; dt_list = [] }) ≡ some s
      → default_digest s.dt_list ≡ dt ∷ dts
      → All IsName (name ∷ names)
      → w.key_lines seckeyfile ≡ some seckey_lines
      → private_data_load blake seckey_lines (some w.password)
        ≡ loaded (record { data_bytes = sk; id = some i; version = 1 })
      → IsBytes i
      → length i ≡ 8
      → add_files h w.disk [] (calls_of s.no_size (dt ∷ dts) (name ∷ names)) ≡ added (f ∷ fs)
      → file_lines (f ∷ fs) ≡ ok text
      → 0 < length text
      → w.opens sigfile ≡ true
      → pubkeys pubkeyfile ≡ some pubkey_lines
      → pubkey_load b64 junk pubkey_lines ≡ some (some (public_key ed sk i))
      → size ≤ 2 ^ 30
      → (file : Bytes) × (cli_sign ed blake b64 w opts (seckeyfile ∷ sigfile ∷ name ∷ names)
          ≡ output done (some file))
        × (cli_check ed b64
              (record {
                pubkeys = pubkeys;
                signatures = λ n.
                    some (record { text = file; stat_ok = true; is_reg = true; st_size = size });
                disk = w.disk;
                junk = junk;
              })
              (cmd ∷ pubkeyfile ∷ sigfile ∷ name ∷ names)
            ≡ some done)
  cli_check-cli_sign w opts s dt dts cmd seckeyfile sigfile pubkeyfile name text names seckey_lines
        pubkey_lines sk i f fs pubkeys junk size d o t n k l b e a g some_text opens p q z =
      let calls = calls_of s.no_size (dt ∷ dts) (name ∷ names) in
      let (file, after, writes, verifies, accepts) =
        verify_one-write_signature ed b64 w.disk calls (signer sk i (f ∷ fs)) sk i text f fs none
          none size d (All-calls_of IsName s.no_size (dt ∷ dts) (name ∷ names) n) a g some_text refl
          refl b e z in
      (
        file,
        cli_sign-written w opts s dt dts seckeyfile sigfile name names seckey_lines sk i file
            (f ∷ fs) o t k l a (rw (opens) writes),
        cli_check-accepted _ cmd pubkeyfile sigfile name names pubkey_lines sk i after p q verifies
            (All-of_calls (λ n. verify_one h after w.disk n ≡ (true, after)) s.no_size dt dts
              (name ∷ names) accepts),
      )
