-- ===== src/Verify/Context/Invariant.antt =====
-- What holds of a verify context after any calls on it: its table comes out of a signed text.
use asignify.Base.{
  ◌≡◌, refl, sym, ◌∙◌, arith, ◌⊎◌, inl, inr, Bool, Bool-cases, true, false, Option, none, some,
  List, [], ◌∷◌,
}
use asignify.Base.{Bytes, All, ◌==◌, length}
use asignify.Libc.Lines.{getlines}
use asignify.Util.Errors.{Error}
use asignify.Util.Digest.{Hashes}
use asignify.Util.Digest.Chunks.{concat}
use asignify.Util.Disk.{Disk, Node, xopen}
use asignify.Data.{File, PublicData}
use asignify.Crypto.Base64.{Base64}
use asignify.Crypto.Ed25519.{Ed25519}
use asignify.Keys.Public.Load.{Junk, pubkey_load, signature_load}
use asignify.Keys.Public.Load.Shapes.{IsKey, pubkey_load-IsKey}
use asignify.Keys.Signature.{check_signature}
use asignify.Verify.Files.{FileTable, get_file}
use asignify.Verify.Machine.{Parsed, parse_files}
use asignify.Verify.Check.{Verdict, accepted, rejected, verify_file, Agrees, verify_file-Agrees}
use asignify.Verify.Context.{
  VerifyCtx, verify_init, SigFile, with_pubkey, verify_load_pubkey, load_sig, check_with,
  check_chain, with_parsed, with_text, with_sig_file, with_chain, verify_load_signature,
  with_verdict, verify_one, Calls, loads_pubkey, loads_signature, verifies, Reached, at_init,
  by_call,
}

-- Some item satisfies `P`.
abbrev pub Any {ℓ} : {A : Type ℓ} → (A → Type 0) → List A → Type 0
Any P [] = ⊥
Any P (x ∷ xs) = P x ⊎ Any P xs

module _ {h : Hashes} (ed : Ed25519 h) where
  -- A table is what the parser makes of a text whose signature one of the keys accepts.
  pub data IsSigned (chain : List PublicData) : Option FileTable → Type 0 where
    no_table : IsSigned chain none
    signed_table :
        (sig : PublicData) (text : Bytes) (p : Parsed)
        → Any (λ pk. check_signature ed pk sig text ≡ true) chain
        → parse_files [] text ≡ some p
        → IsSigned chain (some p.files)

  pub record Inv (ctx : VerifyCtx) : Type 0 where
    pub keys : All IsKey ctx.pk_chain
    pub signed_files : IsSigned ctx.pk_chain ctx.files

  IsSigned-one_more :
      (pk : PublicData) {chain : List PublicData} {files : Option FileTable}
      → IsSigned chain files
      → IsSigned (pk ∷ chain) files
  IsSigned-one_more pk no_table = no_table
  IsSigned-one_more pk (signed_table sig text p by parses) = signed_table sig text p (inr by) parses

  -- What a call leaves, if it returns.
  abbrev InvIf : Option (Bool × VerifyCtx) → Type 0
  InvIf none = Unit
  InvIf (some r) = Inv r.1

  with_pubkey-Inv :
      (ctx : VerifyCtx) (o : Option (Option PublicData))
      → ((pk : PublicData) → o ≡ some (some pk) → IsKey pk)
      → Inv ctx
      → InvIf (with_pubkey ctx o)
  unfolding with_pubkey
  with_pubkey-Inv ctx none k v = tt
  with_pubkey-Inv ctx (some none) k v = record { keys = v.keys; signed_files = v.signed_files }
  with_pubkey-Inv ctx (some (some pk)) k v = record {
    keys = (k pk refl, v.keys);
    signed_files = IsSigned-one_more pk v.signed_files;
  }

  verify_load_pubkey-Inv :
      (b64 : Base64) (junk : Junk) (ctx : VerifyCtx) (file : Option (List Bytes))
      → Inv ctx
      → InvIf (verify_load_pubkey b64 junk ctx file)
  unfolding verify_load_pubkey
  verify_load_pubkey-Inv b64 junk ctx none v = record {
    keys = v.keys;
    signed_files = v.signed_files;
  }
  verify_load_pubkey-Inv b64 junk ctx (some lines) v =
      with_pubkey-Inv ctx (pubkey_load b64 junk lines) (pubkey_load-IsKey b64 junk lines) v

  check_with-some :
      (pk : PublicData) (o : Option PublicData) (text : Bytes)
      → check_with ed pk o text ≡ true
      → (sig : PublicData) × (o ≡ some sig)
  unfolding check_with
  check_with-some pk none text e = cc
  check_with-some pk (some sig) text e = (sig, refl)

  check_chain-Any :
      (chain : List PublicData) (sig : PublicData) (text : Bytes)
      → check_chain ed chain (some sig) text ≡ true
      → Any (λ pk. check_signature ed pk sig text ≡ true) chain
  unfolding check_chain check_with
  check_chain-Any [] sig text e = cc
  check_chain-Any (pk ∷ chain) sig text e = elim (Bool-cases (check_signature ed pk sig text)) [
    | inl yes_here ↦ inl yes_here
    | inr no_here ↦
        inr (check_chain-Any chain sig text (rw (no_here, check_chain, check_with) at e))
  ]

  check_chain-none :
      (chain : List PublicData) (text : Bytes) → check_chain ed chain none text ≡ false
  unfolding check_chain check_with
  check_chain-none [] text = refl
  check_chain-none (pk ∷ chain) text = check_chain-none chain text

  -- What a call leaves, if it returns.
  abbrev Kept : Option (Bool × VerifyCtx) → Type 0
  Kept none = Unit
  Kept (some r) = Inv r.1

  with_parsed-Inv :
      (ctx : VerifyCtx) (sig : PublicData) (text : Bytes) (o : Option Parsed)
      → parse_files [] text ≡ o
      → Any (λ pk. check_signature ed pk sig text ≡ true) ctx.pk_chain
      → Inv ctx
      → Kept (with_parsed ctx o)
  unfolding with_parsed
  with_parsed-Inv ctx sig text none e a v = tt
  with_parsed-Inv ctx sig text (some p) e a v = record {
    keys = v.keys;
    signed_files = signed_table sig text p a e;
  }

  with_error-Inv : (ctx : VerifyCtx) (e : Option Error) → Inv ctx → Inv (record ctx { error = e })
  with_error-Inv ctx e v = record { keys = v.keys; signed_files = v.signed_files }

  with_text-Inv :
      (ctx : VerifyCtx) (sig : Option PublicData) (text : Option Bytes)
      → Inv ctx
      → Kept (with_text ed ctx sig text)
  unfolding with_text
  with_text-Inv ctx sig none v = v
  with_text-Inv ctx sig (some text) v = elim (Bool-cases (length text == 0)) [
    | inl empty ↦ rw (empty, with_text) v
    | inr full ↦ elim (Bool-cases (check_chain ed ctx.pk_chain sig text)) [
      | inr bad ↦ rw (full, with_text, bad) (with_error-Inv ctx (some Error.verify) v)
      | inl good ↦ rw (full, with_text, good) (checked sig good)
    ]
  ]
    where
      checked :
          (o : Option PublicData)
          → check_chain ed ctx.pk_chain o text ≡ true
          → Kept (with_parsed ctx (parse_files [] text))
      checked none good = let bad = sym (check_chain-none ctx.pk_chain text) ∙ good in cc
      checked (some s) good =
          with_parsed-Inv ctx s text (parse_files [] text) refl
            (check_chain-Any ctx.pk_chain s text good) v

  load_sig-Inv :
      (ctx : VerifyCtx) (f : SigFile) (rest : Bytes) → Inv ctx → Inv (load_sig ctx f rest).1
  unfolding load_sig
  load_sig-Inv ctx f rest v = ground (arith, with_error-Inv ctx (some Error.file) v)

  with_chain-Inv :
      (b64 : Base64) (ctx : VerifyCtx) (chain : List PublicData) (f : Option SigFile)
      → Inv ctx
      → Kept (with_chain ed b64 ctx chain f)
  unfolding with_chain with_sig_file
  with_chain-Inv b64 ctx [] f v = with_error-Inv ctx (some Error.misuse) v
  with_chain-Inv b64 ctx (pk ∷ chain) none v = with_error-Inv ctx (some Error.file) v
  with_chain-Inv b64 ctx (pk ∷ chain) (some f) v =
      let (sig, rest) = signature_load b64 (length pk.id) (getlines f.text) in
      with_text-Inv (load_sig ctx f (concat rest)).1 sig (load_sig ctx f (concat rest)).0
        (load_sig-Inv ctx f (concat rest) v)

  with_verdict-Inv : (ctx : VerifyCtx) (w : Verdict) → Inv ctx → Inv (with_verdict ctx w).1
  unfolding with_verdict
  with_verdict-Inv ctx accepted v = v
  with_verdict-Inv ctx (rejected e) v = with_error-Inv ctx (some e) v

  Calls-Inv :
      (b64 : Base64) {ctx after : VerifyCtx} {b : Bool}
      → Calls ed b64 ctx b after
      → Inv ctx
      → Inv after
  unfolding verify_load_signature verify_one
  Calls-Inv b64 {ctx} (loads_pubkey junk file e) v =
      rw e at (verify_load_pubkey-Inv b64 junk ctx file v)
  Calls-Inv b64 {ctx} (loads_signature file e) v =
      rw e at (with_chain-Inv b64 ctx ctx.pk_chain file v)
  Calls-Inv b64 {ctx} (verifies disk name e) v =
      rw e at (with_verdict-Inv ctx (verify_file h disk ctx.files name) v)

  -- After any calls on a new context, in any order and whatever the files hold, every key of the
  -- chain has one of the shapes of a public key, and the table, if there is one, is what the parser
  -- makes of a text whose signature one of the keys of the chain accepts.
  pub Reached-Inv : (b64 : Base64) {ctx : VerifyCtx} → Reached ed b64 ctx → Inv ctx
  unfolding verify_init
  Reached-Inv b64 at_init = record { keys = tt; signed_files = no_table }
  Reached-Inv b64 (by_call r c) = Calls-Inv b64 c (Reached-Inv b64 r)

  -- What is behind a file that is accepted: a text that a key of the chain has signed, the entry
  -- that the parser made of it for that name, and the file on the disk that agrees with the entry.
  pub record Vouched (ctx : VerifyCtx) (disk : Disk) (name : Bytes) : Type 0 where
    pub sig : PublicData
    pub text : Bytes
    pub parsed : Parsed
    pub entry : File
    pub node : Node
    pub signer : Any (λ pk. check_signature ed pk sig text ≡ true) ctx.pk_chain
    pub parses : parse_files [] text ≡ some parsed
    pub named_entry : get_file name parsed.files ≡ some entry
    pub opened : xopen disk name ≡ some node
    pub agrees : Agrees h node entry

  IsSigned-Vouched :
      (ctx : VerifyCtx) (disk : Disk) (name : Bytes) (files : Option FileTable)
      → IsSigned ctx.pk_chain files
      → verify_file h disk files name ≡ accepted
      → Vouched ctx disk name
  unfolding verify_file
  IsSigned-Vouched ctx disk name none no_table e = cc
  IsSigned-Vouched ctx disk name (some table) (signed_table sig text p a parses) e =
      let (f, n, named, opened, agrees) = verify_file-Agrees h disk p.files name e in
      record {
        sig = sig;
        text = text;
        parsed = p;
        entry = f;
        node = n;
        signer = a;
        parses = parses;
        named_entry = named;
        opened = opened;
        agrees = agrees;
      }

  with_verdict-true :
      (ctx after : VerifyCtx) (w : Verdict) → with_verdict ctx w ≡ (true, after) → w ≡ accepted
  unfolding with_verdict
  with_verdict-true ctx after accepted e = refl
  with_verdict-true ctx after (rejected x) e = cc

  -- If a file is accepted after any calls on a new context, then one of its keys accepts the
  -- signature of a text, the parser makes an entry of that name of the text, and the file on the
  -- disk can be opened and agrees with the entry in its size and all its digests.
  pub verify_one-Vouched :
      (b64 : Base64) (ctx after : VerifyCtx) (disk : Disk) (name : Bytes)
      → Reached ed b64 ctx
      → verify_one h ctx disk name ≡ (true, after)
      → Vouched ctx disk name
  unfolding verify_one
  verify_one-Vouched b64 ctx after disk name r e =
      IsSigned-Vouched ctx disk name ctx.files (Reached-Inv b64 r).signed_files
        (with_verdict-true ctx after (verify_file h disk ctx.files name) e)
