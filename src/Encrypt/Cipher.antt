-- ===== src/Encrypt/Cipher.antt =====
-- The loops over a file write the cipher's stream, however the reads cut it.
use asignify.Base.{
  ℕ, ◌+◌, ◌≡◌, refl, sym, ap, ap₂, ◌∙◌, arith, inl, inr, Bool, Bool-cases, true, some, List, [],
  ◌∷◌, ◌++◌, append-nil, append_assoc,
}
use asignify.Base.{Bytes, ◌==◌, length}
use asignify.Util.Digest.{HashAlgorithm}
use asignify.Crypto.Chacha.{Chacha, outputs}
use asignify.Encrypt.Crypt.{crypt_final, crypt_loop}
use asignify.Encrypt.Decrypt.{decrypt_final, decrypt_loop}

pub nothing : (s : Bytes) → (length s == 0) ≡ true → s ≡ []
nothing [] e = refl
nothing (x ∷ s) e = absurd (ground arith)

module _ (c : Chacha) (fits : ℕ → Bool) (all_fit : (n : ℕ) → fits n ≡ true) where
  pub decrypt_loop-outputs :
      (n : ℕ) (st : c.State) (out : Bytes) (bufs : List Bytes)
      → decrypt_loop c fits n st out bufs ≡ some (out ++ outputs c.update c.final st bufs)
  unfolding decrypt_loop decrypt_final
  decrypt_loop-outputs n st out [] = elim (Bool-cases (length (c.final st) == 0)) [
    | inl empty ↦
        rw (empty, decrypt_loop, decrypt_final)
          (ap some (sym (ap (λ s. out ++ s) (nothing (c.final st) empty) ∙ append-nil out)))
    | inr full ↦ rw (full, decrypt_loop, decrypt_final, all_fit n) refl
  ]
  decrypt_loop-outputs n st out (buf ∷ bufs) =
      let (o, after) = c.update st buf in
      rw (all_fit n, decrypt_loop)
        (decrypt_loop-outputs (n + 1) after (out ++ o) bufs
          ∙ ap some (append_assoc out o (outputs c.update c.final after bufs)))

  module _ (a : HashAlgorithm) where
    pub crypt_loop-outputs :
        (n : ℕ) (st : c.State) (sh : a.State) (out : Bytes) (bufs : List Bytes)
        → crypt_loop c a fits n st sh out bufs
          ≡ some (
            out ++ outputs c.update c.final st bufs,
            a.update sh (outputs c.update c.final st bufs),
          )
    unfolding crypt_loop crypt_final
    crypt_loop-outputs n st sh out [] = elim (Bool-cases (length (c.final st) == 0)) [
      | inl empty ↦
          rw
            (
              empty,
              crypt_loop,
              crypt_final,
              nothing (c.final st) empty,
              append-nil out,
              a.update-nil sh,
            )
            refl
      | inr full ↦ rw (full, crypt_loop, crypt_final, all_fit n) refl
    ]
    crypt_loop-outputs n st sh out (buf ∷ bufs) =
        let (o, after) = c.update st buf in
        let rest = outputs c.update c.final after bufs in
        rw (all_fit n, crypt_loop)
          (crypt_loop-outputs (n + 1) after (a.update sh o) (out ++ o) bufs
            ∙ ap some
                (ap₂ (λ s t. (s, t)) (append_assoc out o rest) (sym (a.update-append sh o rest))))
