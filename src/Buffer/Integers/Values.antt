-- ===== src/Buffer/Integers/Values.antt =====
-- A value is what its bytes are joined to.
use Prim.Native.Nat.{bit_or}
use zbluenet.Base.{ℕ, ◌+◌, ◌*◌, ◌%◌, ◌^◌, ◌<◌, ◌≡◌, ◌∙◌, Bool, true, false, arith}
use zbluenet.Base.Word.{byte_at, shl}
use zbluenet.Base.Bits.{bit_or-shifted}
use zbluenet.Buffer.Integers.{value16, value32, value64, join64, bytes16, bytes32, bytes64}

join16_lem : (a b : ℕ) → a < 256 → b < 256 → bit_or a (shl 32 b 8) ≡ a + b * 2 ^ 8
join16_lem a b p q = omega (arith, bit_or-shifted 8 a (shl 32 b 8) b p (omega arith))

join32_lem :
    (a b c d : ℕ)
    → a < 256
    → b < 256
    → c < 256
    → d < 256
    → bit_or (bit_or (bit_or a (shl 32 b 8)) (shl 32 c 16)) (shl 32 d 24)
      ≡ a + b * 2 ^ 8 + c * 2 ^ 16 + d * 2 ^ 24
join32_lem a b c d p q r s =
    rw
      (
        bit_or-shifted 8 a (shl 32 b 8) b p (omega arith),
        bit_or-shifted 16 (a + shl 32 b 8) (shl 32 c 16) c (omega arith) (omega arith),
        bit_or-shifted 24 (a + shl 32 b 8 + shl 32 c 16) (shl 32 d 24) d (omega arith)
            (omega arith),
      )
      (omega arith)

join64_lem :
    (a b c d e f g h : ℕ)
    → a < 256
    → b < 256
    → c < 256
    → d < 256
    → e < 256
    → f < 256
    → g < 256
    → h < 256
    → join64 a b c d e f g h
      ≡ a + b * 2 ^ 8 + c * 2 ^ 16 + d * 2 ^ 24 + e * 2 ^ 32 + f * 2 ^ 40 + g * 2 ^ 48 + h * 2 ^ 56
unfolding join64
join64_lem a b c d e f g h pa pb pc pd pe pf pg ph =
    let ab = a + shl 64 b 8 in
    let ac = ab + shl 64 c 16 in
    let ad = ac + shl 64 d 24 in
    let ae = ad + shl 64 e 32 in
    let af = ae + shl 64 f 40 in
    let ag = af + shl 64 g 48 in
    rw
      (
        bit_or-shifted 8 a (shl 64 b 8) b pa (omega arith),
        bit_or-shifted 16 ab (shl 64 c 16) c (omega arith) (omega arith),
        bit_or-shifted 24 ac (shl 64 d 24) d (omega arith) (omega arith),
        bit_or-shifted 32 ad (shl 64 e 32) e (omega arith) (omega arith),
        bit_or-shifted 40 ae (shl 64 f 40) f (omega arith) (omega arith),
        bit_or-shifted 48 af (shl 64 g 48) g (omega arith) (omega arith),
        bit_or-shifted 56 ag (shl 64 h 56) h (omega arith) (omega arith),
      )
      (omega arith)

pub value16-bytes16 : (e : Bool) (v : ℕ) → v < 2 ^ 16 → value16 e (bytes16 e v) ≡ v
unfolding value16 bytes16
value16-bytes16 true v h =
    omega (arith, join16_lem (v % 256) (byte_at v 8) (omega arith) (omega arith))
value16-bytes16 false v h =
    omega (arith, join16_lem (v % 256) (byte_at v 8) (omega arith) (omega arith))

digits32 :
    (v : ℕ)
    → v < 2 ^ 32
    → v % 256 + byte_at v 8 * 2 ^ 8 + byte_at v 16 * 2 ^ 16 + byte_at v 24 * 2 ^ 24 ≡ v
digits32 v h = omega arith

pub value32-bytes32 : (e : Bool) (v : ℕ) → v < 2 ^ 32 → value32 e (bytes32 e v) ≡ v
unfolding value32 bytes32
value32-bytes32 true v h =
    join32_lem (v % 256) (byte_at v 8) (byte_at v 16) (byte_at v 24) (omega arith) (omega arith)
      (omega arith) (omega arith)
    ∙ digits32 v h
value32-bytes32 false v h =
    join32_lem (v % 256) (byte_at v 8) (byte_at v 16) (byte_at v 24) (omega arith) (omega arith)
      (omega arith) (omega arith)
    ∙ digits32 v h

digits64 :
    (v : ℕ)
    → v < 2 ^ 64
    → v % 256
        + byte_at v 8 * 2 ^ 8
        + byte_at v 16 * 2 ^ 16
        + byte_at v 24 * 2 ^ 24
        + byte_at v 32 * 2 ^ 32
        + byte_at v 40 * 2 ^ 40
        + byte_at v 48 * 2 ^ 48
        + byte_at v 56 * 2 ^ 56
      ≡ v
digits64 v h = omega arith

pub value64-bytes64 : (e : Bool) (v : ℕ) → v < 2 ^ 64 → value64 e (bytes64 e v) ≡ v
unfolding value64 bytes64
value64-bytes64 true v h =
    join64_lem (v % 256) (byte_at v 8) (byte_at v 16) (byte_at v 24) (byte_at v 32) (byte_at v 40)
      (byte_at v 48) (byte_at v 56) (omega arith) (omega arith) (omega arith) (omega arith)
      (omega arith) (omega arith) (omega arith) (omega arith)
    ∙ digits64 v h
value64-bytes64 false v h =
    join64_lem (v % 256) (byte_at v 8) (byte_at v 16) (byte_at v 24) (byte_at v 32) (byte_at v 40)
      (byte_at v 48) (byte_at v 56) (omega arith) (omega arith) (omega arith) (omega arith)
      (omega arith) (omega arith) (omega arith) (omega arith)
    ∙ digits64 v h
