-- ===== src/Keys/Public/Header.antt =====
-- A line with any version and a text behind its data, like the header of an encrypted file, is read.
use asignify.Base.{
  ℕ, ◌≤◌, ◌<◌, ◌^◌, ◌%◌, ◌≡◌, refl, sym, ap, ◌∙◌, arith, true, false, not, ◌&&◌, some, [], ◌∷◌,
  ◌++◌,
}
use asignify.Base.{
  leb, Bytes, IsBytes, All, zero_bytes, ◌==◌, length, length-append, starts_with-append,
}
use asignify.Libc.{isgraph, isdigit}
use asignify.Libc.Decimal.{decimal, strtoul-decimal, digit_span_stop, length-decimal_pos}
use asignify.Crypto.Base64.{Base64, at_colon, at_nul}
use asignify.Keys.Fields.{ulong_max}
use asignify.Keys.Public.{
  strchr, line_rest, aux_text, aux_of, load_data, load_id, load_version, public_data_load,
}
use asignify.Keys.Public.RoundTrip.{drop-append, strchr-append}

line_rest-text :
    (s : Bytes)
    → All (λ c. (isgraph c && not (c == b':')) ≡ true) s
    → line_rest (s ++ b'\n' ∷ []) ≡ s
unfolding line_rest isgraph
line_rest-text [] h = refl
line_rest-text (c ∷ s) h = ground (arith, h.0, line_rest-text s h.1)

aux_text-full : (s : Bytes) → 0 < length s → aux_text s ≡ some s
unfolding aux_text
aux_text-full [] h = absurd (omega arith)
aux_text-full (x ∷ s) h = refl

module _ (b64 : Base64) where
  -- A text that encodes something is not empty.
  pub ntop_not_empty : (b : Bytes) → length b ≡ 64 → 0 < length (b64.ntop b)
  ntop_not_empty b e = go (b64.ntop b) refl
    where
      no_text : (s : Bytes) → length s ≡ 0 → s ≡ []
      no_text [] f = refl
      no_text (x ∷ s) f = absurd (omega arith)

      decoded : (a : Bytes) → IsBytes a → length a ≡ 64 → b64.ntop b ≡ [] → b64.pton 64 [] ≡ some a
      decoded a h l f =
          let empty : b64.ntop a ≡ [] =
            no_text (b64.ntop a) (b64.ntop_same_length a b (l ∙ sym e) ∙ ap length f) in
          rw empty at (b64.pton-ntop 64 a [] h (omega arith) at_nul)

      go : (t : Bytes) → b64.ntop b ≡ t → 0 < length t
      go [] f =
          let one = decoded (1 ∷ zero_bytes 63) (ground arith) refl f in
          let none_set = decoded (zero_bytes 64) (ground arith) refl f in
          let bad = sym one ∙ none_set in absurd cc
      go (x ∷ t) f = omega arith

  module _ (version : ℕ) (id b aux : Bytes) (i : IsBytes id) (h : IsBytes b) (a : IsBytes aux)
      (l : length aux ≡ 64) where
    abbrev aux_part : Bytes
    aux_part = b':' ∷ (b64.ntop aux ++ b'\n' ∷ [])

    aux_of-part : aux_of (some aux_part) ≡ some (b64.ntop aux)
    unfolding aux_of
    aux_of-part =
        rw (line_rest-text (b64.ntop aux) (b64.ntop_text aux a))
          (aux_text-full (b64.ntop aux) (ntop_not_empty aux l))

    load_data-part :
        load_data b64 version (length b) id (some (b':' ∷ (b64.ntop b ++ aux_part)))
        ≡ some (record { data_bytes = b; id = id; aux = some (b64.ntop aux); version = version })
    unfolding load_data strchr
    load_data-part =
        rw
          (
            b64.pton_stop-ntop (length b) b aux_part h (omega arith) at_colon,
            load_data,
            strchr-append (b64.ntop b) aux_part (b64.ntop_text b h),
            aux_of-part,
          )
          (ground arith)

    load_id-part :
        load_id b64 version (length id) (length b) (b64.ntop id ++ b':' ∷ (b64.ntop b ++ aux_part))
        ≡ some (record { data_bytes = b; id = id; aux = some (b64.ntop aux); version = version })
    unfolding load_id strchr
    load_id-part =
        rw
          (
            b64.pton_stop-ntop (length id) id (b':' ∷ (b64.ntop b ++ aux_part)) i (omega arith)
                at_colon,
            load_id,
            strchr-append (b64.ntop id) (b':' ∷ (b64.ntop b ++ aux_part)) (b64.ntop_text id i),
          )
          (ground (arith, load_data-part))

    pub public_data_load-header :
        (magic : Bytes) (lo hi : ℕ)
        → lo ≤ version
        → version ≤ hi
        → hi < 2 ^ 32
        → public_data_load b64
            (magic ++ (decimal version ++ b':' ∷ (b64.ntop id ++ b':' ∷ (b64.ntop b ++ aux_part))))
            magic
            lo
            hi
            (length id)
            (length b)
          ≡ some (record { data_bytes = b; id = id; aux = some (b64.ntop aux); version = version })
    unfolding public_data_load load_version
    public_data_load-header magic lo hi p q r =
        let rest = b':' ∷ (b64.ntop id ++ b':' ∷ (b64.ntop b ++ aux_part)) in
        let text = decimal version ++ rest in
        let fits : version % 2 ^ 32 ≡ version = omega arith in
        let long : leb (length (magic ++ text)) (length magic) ≡ false = ground (
          arith,
          length-append magic text,
          length-append (decimal version) rest,
          length-decimal_pos version,
        ) in
        rw
          (
            long,
            drop-append magic text,
            public_data_load,
            starts_with-append magic text,
            strtoul-decimal ulong_max version rest (omega arith)
                (digit_span_stop b':' _ (digit_colon)),
            drop-append (decimal version) rest,
            fits,
          )
          (ground (arith, load_id-part))
      where
        digit_colon : isdigit b':' ≡ false
        digit_colon = unfold isdigit in refl
