-- ===== src/Verify/Context/Chain.antt =====
-- What the calls on a verify context make of its chain of keys.
use asignify.Base.{
  ◌≡◌, refl, sym, ap, arith, inl, inr, Bool, Bool-cases, true, Option, none, some, List, [], ◌∷◌,
}
use asignify.Base.{Bytes, ◌==◌, length}
use asignify.Libc.Lines.{getlines}
use asignify.Util.Digest.{Hashes}
use asignify.Util.Digest.Chunks.{concat}
use asignify.Util.Disk.{Disk}
use asignify.Data.{PublicData}
use asignify.Crypto.Base64.{Base64}
use asignify.Crypto.Ed25519.{Ed25519}
use asignify.Keys.Public.Load.{Junk, pubkey_load, signature_load}
use asignify.Verify.Machine.{Parsed, parse_files}
use asignify.Verify.Check.{Verdict, accepted, rejected, verify_file}
use asignify.Verify.Context.{
  VerifyCtx, verify_init, SigFile, with_pubkey, verify_load_pubkey, load_sig, check_chain,
  with_parsed, with_text, with_sig_file, with_chain, verify_load_signature, with_verdict,
  verify_one,
}

-- What a call leaves has this chain, if it returns.
abbrev HasChain : List PublicData → Option (Bool × VerifyCtx) → Type 0
HasChain chain none = Unit
HasChain chain (some r) = r.1.pk_chain ≡ chain

with_parsed-HasChain :
    (ctx : VerifyCtx) (o : Option Parsed) → HasChain ctx.pk_chain (with_parsed ctx o)
unfolding with_parsed
with_parsed-HasChain ctx none = tt
with_parsed-HasChain ctx (some p) = refl

load_sig-HasChain :
    (ctx : VerifyCtx) (f : SigFile) (rest : Bytes) → (load_sig ctx f rest).1.pk_chain ≡ ctx.pk_chain
unfolding load_sig
load_sig-HasChain ctx f rest = ground arith

with_text-HasChain :
    {h : Hashes} (ed : Ed25519 h) (ctx : VerifyCtx) (sig : Option PublicData) (text : Option Bytes)
    → HasChain ctx.pk_chain (with_text ed ctx sig text)
unfolding with_text
with_text-HasChain ed ctx sig none = refl
with_text-HasChain ed ctx sig (some text) = elim (Bool-cases (length text == 0)) [
  | inl empty ↦ rw (empty, with_text) refl
  | inr full ↦ elim (Bool-cases (check_chain ed ctx.pk_chain sig text)) [
    | inl good ↦ rw (full, with_text, good) (with_parsed-HasChain ctx (parse_files [] text))
    | inr bad ↦ rw (full, with_text, bad) refl
  ]
]

with_chain-HasChain :
    {h : Hashes} (ed : Ed25519 h) (b64 : Base64) (ctx : VerifyCtx) (chain : List PublicData)
    (f : Option SigFile)
    → HasChain ctx.pk_chain (with_chain ed b64 ctx chain f)
unfolding with_chain with_sig_file
with_chain-HasChain ed b64 ctx [] f = refl
with_chain-HasChain ed b64 ctx (pk ∷ chain) none = refl
with_chain-HasChain ed b64 ctx (pk ∷ chain) (some f) =
    let (sig, rest) = signature_load b64 (length pk.id) (getlines f.text) in
    let loads = load_sig ctx f (concat rest) in
    rw (load_sig-HasChain ctx f (concat rest)) at (with_text-HasChain ed loads.1 sig loads.0)

-- The loading of a signature leaves the chain as it is.
pub verify_load_signature_chain :
    {h : Hashes} (ed : Ed25519 h) (b64 : Base64) (ctx after : VerifyCtx) (f : Option SigFile)
    {b : Bool}
    → verify_load_signature ed b64 ctx f ≡ some (b, after)
    → after.pk_chain ≡ ctx.pk_chain
unfolding verify_load_signature
verify_load_signature_chain ed b64 ctx after f e =
    rw e at (with_chain-HasChain ed b64 ctx ctx.pk_chain f)

-- A file that is accepted leaves the context as it is.
pub verify_one_same :
    (h : Hashes) (ctx after : VerifyCtx) (disk : Disk) (name : Bytes)
    → verify_one h ctx disk name ≡ (true, after)
    → after ≡ ctx
unfolding verify_one with_verdict
verify_one_same h ctx after disk name e = go (verify_file h disk ctx.files name) e
  where
    go : (w : Verdict) → with_verdict ctx w ≡ (true, after) → after ≡ ctx
    go accepted k = cc
    go (rejected x) k = cc

-- The first key that is loaded is the only one of the chain; there is none if the file cannot be
-- opened.
abbrev pub FirstKey : Base64 → Junk → Option (List Bytes) → List PublicData → Type 0
FirstKey b64 junk none chain = chain ≡ []
FirstKey b64 junk (some lines) chain =
    (pk : PublicData) × (pubkey_load b64 junk lines ≡ some (some pk)) × (chain ≡ pk ∷ [])

chain_of : {r t : Bool × VerifyCtx} → some r ≡ some t → r.1.pk_chain ≡ t.1.pk_chain
chain_of {r} {t} e = let same : r ≡ t = cc in ap (λ p. p.1.pk_chain) same

with_pubkey_chain :
    (o : Option (Option PublicData)) (after : VerifyCtx)
    → with_pubkey verify_init o ≡ some (true, after)
    → (pk : PublicData) × (o ≡ some (some pk)) × (after.pk_chain ≡ pk ∷ [])
unfolding with_pubkey verify_init
with_pubkey_chain none after e = cc
with_pubkey_chain (some none) after e = cc
with_pubkey_chain (some (some pk)) after e = (pk, refl, sym (chain_of e))

pub verify_load_pubkey-FirstKey :
    (b64 : Base64) (junk : Junk) (file : Option (List Bytes)) (after : VerifyCtx)
    → verify_load_pubkey b64 junk verify_init file ≡ some (true, after)
    → FirstKey b64 junk file after.pk_chain
unfolding verify_load_pubkey verify_init
verify_load_pubkey-FirstKey b64 junk none after e = sym (chain_of e)
verify_load_pubkey-FirstKey b64 junk (some lines) after e =
    with_pubkey_chain (pubkey_load b64 junk lines) after e

pub verify_load_pubkey-loaded :
    (b64 : Base64) (junk : Junk) (ctx : VerifyCtx) (lines : List Bytes) (pk : PublicData)
    → pubkey_load b64 junk lines ≡ some (some pk)
    → verify_load_pubkey b64 junk ctx (some lines)
      ≡ some (true, record ctx { pk_chain = pk ∷ ctx.pk_chain })
unfolding verify_load_pubkey with_pubkey
verify_load_pubkey-loaded b64 junk ctx lines pk p = rw (verify_load_pubkey, p, with_pubkey) refl
