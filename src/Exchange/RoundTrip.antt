-- ===== src/Exchange/RoundTrip.antt =====
-- What is written by a WRITE macro is read back by its READ macro.
use zbluenet.Base.{ℕ, ◌^◌, ◌<◌, List, All, length, Option}
use zbluenet.Exchange.{
  Cursor, Reader, read_int16v, write_int16v, read_int32v, write_int32v, read_int64v, write_int64v,
  read_string, write_string, read_list, write_list,
}
use zbluenet.Exchange.Codec.{IsCodec, RoundTrip}
use zbluenet.Exchange.Integers.{
  encoding16v, encoding32v, encoding64v, int16v-IsCodec, int32v-IsCodec, int64v-IsCodec,
}
use zbluenet.Exchange.Containers.{encoding_string, string-IsCodec, encoding_list, list-IsCodec}

-- For a value below 2 ^ 16, WRITE_INT16V appends its encoding of 1 or 3 bytes if that fits and
-- fails otherwise, and READ_INT16V gives the value back from the front of what follows.
pub read_int16v-write_int16v :
    (v : ℕ) (c : Cursor) (rest : List ℕ)
    → v < 2 ^ 16
    → RoundTrip encoding16v write_int16v read_int16v v c rest
read_int16v-write_int16v v c rest h =
    (int16v-IsCodec.write_lem v c h, int16v-IsCodec.read_lem v rest h)

-- For a value below 2 ^ 32, WRITE_INT32V appends its encoding of 1, 3 or 5 bytes if that fits and
-- fails otherwise, and READ_INT32V gives the value back from the front of what follows.
read_int32v-write_int32v :
    (v : ℕ) (c : Cursor) (rest : List ℕ)
    → v < 2 ^ 32
    → RoundTrip encoding32v write_int32v read_int32v v c rest
read_int32v-write_int32v v c rest h =
    (int32v-IsCodec.write_lem v c h, int32v-IsCodec.read_lem v rest h)

-- For a value below 2 ^ 64, WRITE_INT64V appends its encoding of 1, 3, 5 or 9 bytes if that fits
-- and fails otherwise, and READ_INT64V gives the value back from the front of what follows.
pub read_int64v-write_int64v :
    (v : ℕ) (c : Cursor) (rest : List ℕ)
    → v < 2 ^ 64
    → RoundTrip encoding64v write_int64v read_int64v v c rest
read_int64v-write_int64v v c rest h =
    (int64v-IsCodec.write_lem v c h, int64v-IsCodec.read_lem v rest h)

-- For a string shorter than 2 ^ 32, WRITE_STRING appends its length and its bytes if both fit and
-- fails otherwise, and READ_STRING gives the string back from the front of what follows.
read_string-write_string :
    (s : List ℕ) (c : Cursor) (rest : List ℕ)
    → length s < 2 ^ 32
    → RoundTrip encoding_string write_string read_string s c rest
read_string-write_string s c rest h =
    (string-IsCodec.write_lem s c h, string-IsCodec.read_lem s rest h)

-- For a list shorter than 2 ^ 32 of valid elements whose own macros obey the two laws (lists of
-- lists included), WRITE_LIST appends the length and the encodings of the elements if all fit and
-- fails otherwise, and READ_LIST gives the list back from the front of what follows.
pub read_list-write_list {ℓ} :
    {A : Type ℓ} {Valid : A → Type 0} {encoding : A → List ℕ} {write : A → Cursor → Option Cursor}
    {read : Reader A} (codec : IsCodec Valid encoding write read) (vs : List A) (c : Cursor)
    (rest : List ℕ)
    → length vs < 2 ^ 32
    → All Valid vs
    → RoundTrip (encoding_list codec) (write_list write) (read_list read) vs c rest
read_list-write_list codec vs c rest h valid = (
  (list-IsCodec codec).write_lem vs c (h, valid),
  (list-IsCodec codec).read_lem vs rest (h, valid),
)
