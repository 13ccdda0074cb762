-- ===== src/Exchange/Integers.antt =====
-- The fixed and the variable-length integers, and the lengths.
use zbluenet.Base.{
  ℕ, ◌^◌, ◌<◌, ◌≡◌, refl, sym, ap, ◌∙◌, fun_ext, List, [], ◌∷◌, ◌++◌, Option, some, false, arith,
  length, leb, ltb, if◌then◌else◌, get_or, length-append, drop-append,
}
use zbluenet.Buffer.Integers.{value16, value32, value64, bytes16, bytes32, bytes64}
use zbluenet.Buffer.Integers.Values.{value16-bytes16, value32-bytes32, value64-bytes64}
use native.Mathlib.Nat.{mod-eq_of_lt}
use zbluenet.Exchange.{
  Cursor, Reader, ◌>>=◌, read_fixed, write_fixed, read_int8, read_int16, read_int32, read_int64,
  write_int8, write_int16, write_int32, write_int64, read_int16v, read_int32v, read_int64v,
  write_int16v, write_int32v, write_int64v, read_length, write_length,
}
use zbluenet.Exchange.Codec.{put, put-put, IsCodec}

read_fixed_lem :
    (n : ℕ) (value : List ℕ → ℕ) (bytes rest : List ℕ) (v : ℕ)
    → length bytes ≡ n
    → value (bytes ++ rest) ≡ v
    → read_fixed n value (bytes ++ rest) ≡ some (v, rest)
unfolding read_fixed
read_fixed_lem n value bytes rest v len e =
    ground (arith, length-append bytes rest, drop-append n bytes rest (sym len))

write_fixed_lem :
    (n : ℕ) (bytes : List ℕ) (c : Cursor) → length bytes ≡ n → write_fixed n bytes c ≡ put bytes c
unfolding write_fixed
write_fixed_lem n bytes c len = ground arith

pub int8-IsCodec : IsCodec (λ v. v < 2 ^ 8) (λ v. v ∷ []) write_int8 read_int8
unfolding read_int8 write_int8
int8-IsCodec = record {
  write_lem = λ v c h. rw (mod-eq_of_lt h) (write_fixed_lem 1 (v ∷ []) c refl);
  read_lem = λ v rest h. read_fixed_lem 1 (λ q. get_or q 0 0) (v ∷ []) rest v refl refl;
}

pub int16-IsCodec : IsCodec (λ v. v < 2 ^ 16) (bytes16 false) write_int16 read_int16
unfolding read_int16 write_int16 bytes16 value16
int16-IsCodec = record {
  write_lem = λ v c h. write_fixed_lem 2 (bytes16 false v) c refl;
  read_lem = λ v rest h.
      read_fixed_lem 2 (value16 false) (bytes16 false v) rest v refl (value16-bytes16 false v h);
}

pub int32-IsCodec : IsCodec (λ v. v < 2 ^ 32) (bytes32 false) write_int32 read_int32
unfolding read_int32 write_int32 bytes32 value32
int32-IsCodec = record {
  write_lem = λ v c h. write_fixed_lem 4 (bytes32 false v) c refl;
  read_lem = λ v rest h.
      read_fixed_lem 4 (value32 false) (bytes32 false v) rest v refl (value32-bytes32 false v h);
}

pub int64-IsCodec : IsCodec (λ v. v < 2 ^ 64) (bytes64 false) write_int64 read_int64
unfolding read_int64 write_int64 bytes64 value64
int64-IsCodec = record {
  write_lem = λ v c h. write_fixed_lem 8 (bytes64 false v) c refl;
  read_lem = λ v rest h.
      read_fixed_lem 8 (value64 false) (bytes64 false v) rest v refl (value64-bytes64 false v h);
}

-- A mark byte and a wider integer, put one after the other.
marked :
    (mark v : ℕ) (c : Cursor) {Valid : ℕ → Type 0} {encoding : ℕ → List ℕ}
    {write : ℕ → Cursor → Option Cursor} {read : Reader ℕ}
    → mark < 2 ^ 8
    → IsCodec Valid encoding write read
    → Valid v
    → (write_int8 mark c >>= write v) ≡ put (mark ∷ encoding v) c
marked mark v c {encoding = encoding} small codec ok = rw (int8-IsCodec.write_lem mark c small) (
    ap (λ k. put (mark ∷ []) c >>= k) (fun_ext λ d. codec.write_lem v d ok)
    ∙ put-put (mark ∷ []) (encoding v) c)

abbrev pub encoding16v : ℕ → List ℕ
encoding16v v = if ltb v 255 then v ∷ [] else 255 ∷ bytes16 false v

abbrev pub encoding32v : ℕ → List ℕ
encoding32v v =
    if ltb v 254
    then v ∷ []
    else if leb v 0xffff
    then 254 ∷ bytes16 false v
    else 255 ∷ bytes32 false v

abbrev pub encoding64v : ℕ → List ℕ
encoding64v v =
    if ltb v 253
    then v ∷ []
    else if leb v 0xffff
    then 253 ∷ bytes16 false v
    else if leb v 0xffffffff
    then 254 ∷ bytes32 false v
    else 255 ∷ bytes64 false v

-- WRITE_INT16V puts 1 or 3 bytes or fails for want of room, and READ_INT16V takes them back.
pub int16v-IsCodec : IsCodec (λ v. v < 2 ^ 16) encoding16v write_int16v read_int16v
unfolding read_int16v write_int16v
int16v-IsCodec = record {
  write_lem = λ v c h.
      ground (arith, int8-IsCodec.write_lem v c, marked 255 v c (omega arith) int16-IsCodec h);
  read_lem = λ v rest h. ground (
    arith,
    int8-IsCodec.read_lem v rest,
    int8-IsCodec.read_lem 255 (bytes16 false v ++ rest),
    int16-IsCodec.read_lem v rest,
  );
}

-- WRITE_INT32V puts 1, 3 or 5 bytes or fails for want of room, and READ_INT32V takes them back.
pub int32v-IsCodec : IsCodec (λ v. v < 2 ^ 32) encoding32v write_int32v read_int32v
unfolding read_int32v write_int32v
int32v-IsCodec = record {
  write_lem = λ v c h. ground (
    arith,
    int8-IsCodec.write_lem v c,
    marked 254 v c (omega arith) int16-IsCodec,
    marked 255 v c (omega arith) int32-IsCodec h,
  );
  read_lem = λ v rest h. ground (
    arith,
    int8-IsCodec.read_lem v rest,
    int8-IsCodec.read_lem 254 (bytes16 false v ++ rest),
    int8-IsCodec.read_lem 255 (bytes32 false v ++ rest),
    int16-IsCodec.read_lem v rest,
    int32-IsCodec.read_lem v rest h,
  );
}

-- WRITE_INT64V puts 1, 3, 5 or 9 bytes or fails for want of room, and READ_INT64V takes them back.
pub int64v-IsCodec : IsCodec (λ v. v < 2 ^ 64) encoding64v write_int64v read_int64v
unfolding read_int64v write_int64v
int64v-IsCodec = record {
  write_lem = λ v c h. ground (
    arith,
    int8-IsCodec.write_lem v c,
    marked 253 v c (omega arith) int16-IsCodec,
    marked 254 v c (omega arith) int32-IsCodec,
    marked 255 v c (omega arith) int64-IsCodec h,
  );
  read_lem = λ v rest h. ground (
    arith,
    int8-IsCodec.read_lem v rest,
    int8-IsCodec.read_lem 253 (bytes16 false v ++ rest),
    int8-IsCodec.read_lem 254 (bytes32 false v ++ rest),
    int8-IsCodec.read_lem 255 (bytes64 false v ++ rest),
    int16-IsCodec.read_lem v rest,
    int32-IsCodec.read_lem v rest,
    int64-IsCodec.read_lem v rest h,
  );
}

pub length-IsCodec : IsCodec (λ v. v < 2 ^ 32) encoding32v write_length read_length
unfolding read_length write_length
length-IsCodec = record {
  write_lem = λ v c h. ground (
    arith,
    int8-IsCodec.write_lem v c,
    marked 254 v c (omega arith) int16-IsCodec,
    marked 255 v c (omega arith) int32-IsCodec h,
  );
  read_lem = λ v rest h. ground (
    arith,
    int8-IsCodec.read_lem v rest,
    int8-IsCodec.read_lem 254 (bytes16 false v ++ rest),
    int8-IsCodec.read_lem 255 (bytes32 false v ++ rest),
    int16-IsCodec.read_lem v rest,
    int32-IsCodec.read_lem v rest h,
  );
}
