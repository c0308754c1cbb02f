-- ===== src/Encrypt/Plain.antt =====
-- What the loop of `asignify_encrypt_decrypt_file` over the pieces has written when it succeeds.
use asignify.Base.{
  ℕ, ◌+◌, ◌≡◌, sym, ◌∙◌, inl, inr, Bool, Bool-cases, some, List, [], ◌∷◌, ◌++◌, append-nil,
  append_assoc,
}
use asignify.Base.{Bytes, ◌==◌, length}
use asignify.Crypto.Chacha.{Chacha, outputs}
use asignify.Encrypt.Decrypt.{decrypt_final, decrypt_loop}
use asignify.Encrypt.Cipher.{nothing}

decrypt_final-outputs :
    (c : Chacha) (fits : ℕ → Bool) (n : ℕ) (st : c.State) (out : Bytes) {o : Bytes}
    → decrypt_final c fits n st out ≡ some o
    → o ≡ out ++ c.final st
unfolding decrypt_final
decrypt_final-outputs c fits n st out {o} e = elim (Bool-cases (length (c.final st) == 0)) [
  | inl empty ↦
      let same : out ≡ o = (let f = rw empty at e in cc) in
      rw (nothing (c.final st) empty) (sym same ∙ sym (append-nil out))
  | inr full ↦ elim (Bool-cases (fits n)) [
    | inl fit ↦ let f = rw (full, fit) at e in cc
    | inr short ↦ let f = rw (full, short) at e in cc
  ]
]

pub decrypt_loop-stream :
    (c : Chacha) (fits : ℕ → Bool) (n : ℕ) (st : c.State) (out : Bytes) (bufs : List Bytes)
    {o : Bytes}
    → decrypt_loop c fits n st out bufs ≡ some o
    → o ≡ out ++ outputs c.update c.final st bufs
unfolding decrypt_loop
decrypt_loop-stream c fits n st out [] e = decrypt_final-outputs c fits n st out e
decrypt_loop-stream c fits n st out (buf ∷ bufs) e = elim (Bool-cases (fits n)) [
  | inl fit ↦
      let (p, after) = c.update st buf in
      decrypt_loop-stream c fits (n + 1) after (out ++ p) bufs (rw (fit, decrypt_loop) at e)
      ∙ append_assoc out p (outputs c.update c.final after bufs)
  | inr short ↦ let f = rw (short, decrypt_loop) at e in cc
]
