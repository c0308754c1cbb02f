-- ===== src/Crypto/Xor.antt =====
-- `a[i] ^= b[i]` over two buffers of one length.
use asignify.Base.{ℕ, ◌≡◌, refl, ap₂, arith, true, ◌&&◌, ◌<◌, [], ◌∷◌, Bytes, IsBytes}
use asignify.Base.{bit_xor, length, ◌==◌, ltb, ltb→lt, ==_iff, holds_below, from_table}

unfoldable pub xor_bytes : Bytes → Bytes → Bytes
xor_bytes [] b = []
xor_bytes (x ∷ a) [] = x ∷ a
xor_bytes (x ∷ a) (y ∷ b) = bit_xor x y ∷ xor_bytes a b

pub length-xor_bytes : (a b : Bytes) → length (xor_bytes a b) ≡ length a
unfolding xor_bytes
length-xor_bytes [] b = refl
length-xor_bytes (x ∷ a) [] = refl
length-xor_bytes (x ∷ a) (y ∷ b) = omega (arith, length-xor_bytes a b)

twice_table :
    holds_below 256
      (λ x. holds_below 256 (λ y. bit_xor (bit_xor x y) y == x && ltb (bit_xor x y) 256))
    ≡ true
unfolding holds_below
twice_table = refl

twice : (x y : ℕ) → x < 256 → y < 256 → (bit_xor (bit_xor x y) y ≡ x) × (bit_xor x y < 256)
twice x y h k =
    let t = from_table 256 _ y (from_table 256 _ x twice_table h) k in
    ((==_iff _ x).0 (ground (arith, t)), ltb→lt _ 256 (ground (arith, t)))

pub xor_bytes-IsBytes : (a b : Bytes) → IsBytes a → IsBytes b → IsBytes (xor_bytes a b)
unfolding xor_bytes
xor_bytes-IsBytes [] b h k = tt
xor_bytes-IsBytes (x ∷ a) [] h k = h
xor_bytes-IsBytes (x ∷ a) (y ∷ b) h k = ((twice x y h.0 k.0).1, xor_bytes-IsBytes a b h.1 k.1)

-- Xor with the same bytes twice gives the first buffer back, both being of bytes.
pub xor_bytes_twice : (a b : Bytes) → IsBytes a → IsBytes b → xor_bytes (xor_bytes a b) b ≡ a
unfolding xor_bytes
xor_bytes_twice [] b h k = refl
xor_bytes_twice (x ∷ a) [] h k = refl
xor_bytes_twice (x ∷ a) (y ∷ b) h k = ap₂ ◌∷◌ (twice x y h.0 k.0).0 (xor_bytes_twice a b h.1 k.1)
