-- ===== src/Cli/Checked.antt =====
-- What is known when `check` has succeeded.
use asignify.Base.{
  Bool-cases, ◌≡◌, inl, inr, refl, ap, Bool, true, false, Option, none, some, List, [], ◌∷◌,
}
use asignify.Base.{Bytes, All}
use asignify.Util.Digest.{Hashes}
use asignify.Util.Disk.{Disk, Node, xopen}
use asignify.Data.{File, PublicData}
use asignify.Crypto.Base64.{Base64}
use asignify.Crypto.Ed25519.{Ed25519}
use asignify.Keys.Public.Load.{pubkey_load}
use asignify.Keys.Signature.{check_signature}
use asignify.Verify.Files.{get_file}
use asignify.Verify.Machine.{Parsed, parse_files}
use asignify.Verify.Check.{Agrees}
use asignify.Verify.Context.{
  VerifyCtx, verify_init, verify_load_pubkey, verify_load_signature, verify_one, Reached, at_init,
  by_call, loads_pubkey, loads_signature,
}
use asignify.Verify.Context.Invariant.{Any, Vouched, verify_one-Vouched}
use asignify.Verify.Context.Chain.{
  FirstKey, verify_load_signature_chain, verify_one_same, verify_load_pubkey-FirstKey,
}
use asignify.Cli.{failed, done}
use asignify.Cli.Check.{World, check_files, with_signature, with_pubkey, loaded_then, cli_check}

check_files_failed :
    (h : Hashes) (disk : Disk) (ctx : VerifyCtx) (names : List Bytes)
    → check_files h disk ctx failed names ≡ failed
unfolding check_files
check_files_failed h disk ctx [] = refl
check_files_failed h disk ctx (name ∷ names) = elim (Bool-cases (verify_one h ctx disk name).0) [
  | inl good ↦ rw good (check_files_failed h disk (verify_one h ctx disk name).1 names)
  | inr bad ↦ rw bad (check_files_failed h disk (verify_one h ctx disk name).1 names)
]

module _ {h : Hashes} (ed : Ed25519 h) (b64 : Base64) where
  check_files-Vouched :
      (disk : Disk) (ctx : VerifyCtx) (names : List Bytes)
      → Reached ed b64 ctx
      → check_files h disk ctx done names ≡ done
      → All (Vouched ed ctx disk) names
  unfolding check_files
  check_files-Vouched disk ctx [] r e = tt
  check_files-Vouched disk ctx (name ∷ names) r e =
      elim (Bool-cases (verify_one h ctx disk name).0) [
        | inl good ↦
            let one : verify_one h ctx disk name ≡ (true, (verify_one h ctx disk name).1) =
              ap (λ b. (b, (verify_one h ctx disk name).1)) good in
            let same = verify_one_same h ctx (verify_one h ctx disk name).1 disk name one in
            (
              verify_one-Vouched ed b64 ctx (verify_one h ctx disk name).1 disk name r one,
              check_files-Vouched disk ctx names r (rw (good, same) at e),
            )
        | inr bad ↦
            let no =
              rw (bad, check_files_failed h disk (verify_one h ctx disk name).1 names) at e in
            cc
      ]

  -- A text that the key has signed, the entry of that name that the parser makes of it, and the file
  -- on the disk that agrees with the entry.
  pub record Endorsed (pk : PublicData) (disk : Disk) (name : Bytes) : Type 0 where
    pub sig : PublicData
    pub text : Bytes
    pub parsed : Parsed
    pub entry : File
    pub node : Node
    pub signs : check_signature ed pk sig text ≡ true
    pub parses : parse_files [] text ≡ some parsed
    pub named_entry : get_file name parsed.files ≡ some entry
    pub opened : xopen disk name ≡ some node
    pub agrees : Agrees h node entry

  Vouched-Endorsed :
      (pk : PublicData) (ctx : VerifyCtx) (disk : Disk) (name : Bytes)
      → ctx.pk_chain ≡ pk ∷ []
      → Vouched ed ctx disk name
      → Endorsed pk disk name
  Vouched-Endorsed pk ctx disk name c v = record {
    sig = v.sig;
    text = v.text;
    parsed = v.parsed;
    entry = v.entry;
    node = v.node;
    signs = only (rw c at v.signer);
    parses = v.parses;
    named_entry = v.named_entry;
    opened = v.opened;
    agrees = v.agrees;
  }
    where
      only :
          Any (λ k. check_signature ed k v.sig v.text ≡ true) (pk ∷ [])
          → check_signature ed pk v.sig v.text ≡ true
      only (inl e) = e
      only (inr e) = absurd e

  All-Endorsed :
      (pk : PublicData) (ctx : VerifyCtx) (disk : Disk) (names : List Bytes)
      → ctx.pk_chain ≡ pk ∷ []
      → All (Vouched ed ctx disk) names
      → All (Endorsed pk disk) names
  All-Endorsed pk ctx disk [] c a = tt
  All-Endorsed pk ctx disk (name ∷ names) c a =
      (Vouched-Endorsed pk ctx disk name c a.0, All-Endorsed pk ctx disk names c a.1)

  -- A key and the files that it vouches for.
  pub record CheckedBy (w : World) (pubkeyfile : Bytes) (names : List Bytes) : Type 0 where
    pub lines : List Bytes
    pub pk : PublicData
    pub key_file : w.pubkeys pubkeyfile ≡ some lines
    pub key_loads : pubkey_load b64 w.junk lines ≡ some (some pk)
    pub endorsed : All (Endorsed pk w.disk) names

  chain-CheckedBy :
      (w : World) (pubkeyfile name : Bytes) (names : List Bytes) (ctx : VerifyCtx)
      (file : Option (List Bytes))
      → w.pubkeys pubkeyfile ≡ file
      → FirstKey b64 w.junk file ctx.pk_chain
      → All (Vouched ed ctx w.disk) (name ∷ names)
      → CheckedBy w pubkeyfile (name ∷ names)
  chain-CheckedBy w pubkeyfile name names ctx none k c a = absurd (rw c at a.0.signer)
  chain-CheckedBy w pubkeyfile name names ctx (some lines) k (pk, loads, chain) a = record {
    lines = lines;
    pk = pk;
    key_file = k;
    key_loads = loads;
    endorsed = All-Endorsed pk ctx w.disk (name ∷ names) chain a;
  }

  -- If `check` succeeds, then the file of the public key can be opened and holds a key, and for every
  -- file that is named the key has signed a text of which the parser makes an entry of that name, and
  -- the file on the disk can be opened and agrees with the entry in its size and all its digests.
  pub cli_check-CheckedBy :
      (w : World) (cmd pubkeyfile sigfile name : Bytes) (names : List Bytes)
      → cli_check ed b64 w (cmd ∷ pubkeyfile ∷ sigfile ∷ name ∷ names) ≡ some done
      → CheckedBy w pubkeyfile (name ∷ names)
  unfolding cli_check loaded_then with_pubkey with_signature
  cli_check-CheckedBy w cmd pubkeyfile sigfile name names e =
      key (verify_load_pubkey b64 w.junk verify_init (w.pubkeys pubkeyfile)) refl
    where
      signature :
          (ctx : VerifyCtx)
          → verify_load_pubkey b64 w.junk verify_init (w.pubkeys pubkeyfile) ≡ some (true, ctx)
          → (o : Option (Bool × VerifyCtx))
          → verify_load_signature ed b64 ctx (w.signatures sigfile) ≡ o
          → CheckedBy w pubkeyfile (name ∷ names)
      signature ctx k none s =
          let no = rw (k, cli_check, loaded_then, with_pubkey, s, with_signature) at e in cc
      signature ctx k (some (false, after)) s =
          let no = rw (k, cli_check, loaded_then, with_pubkey, s, with_signature) at e in cc
      signature ctx k (some (true, after)) s =
          let r =
            by_call (by_call at_init (loads_pubkey w.junk (w.pubkeys pubkeyfile) k))
              (loads_signature (w.signatures sigfile) s) in
          let ends : check_files h w.disk after done (name ∷ names) ≡ done =
            (let f = rw (k, cli_check, loaded_then, with_pubkey, s, with_signature) at e in cc) in
          let chain = verify_load_signature_chain ed b64 ctx after (w.signatures sigfile) s in
          chain-CheckedBy w pubkeyfile name names after (w.pubkeys pubkeyfile) refl
            (rw (← chain) at (verify_load_pubkey-FirstKey b64 w.junk (w.pubkeys pubkeyfile) ctx k))
            (check_files-Vouched w.disk after (name ∷ names) r ends)

      key :
          (r : Option (Bool × VerifyCtx))
          → verify_load_pubkey b64 w.junk verify_init (w.pubkeys pubkeyfile) ≡ r
          → CheckedBy w pubkeyfile (name ∷ names)
      key none k = let no = rw (k, cli_check, loaded_then, with_pubkey) at e in cc
      key (some (false, ctx)) k = let no = rw (k, cli_check, loaded_then, with_pubkey) at e in cc
      key (some (true, ctx)) k =
          signature ctx k (verify_load_signature ed b64 ctx (w.signatures sigfile)) refl
