-- ===== src/Exchange/Tests.antt =====
-- The encoding macros on concrete inputs.
use zbluenet.Base.{◌^◌, ◌≡◌, refl, [], ◌∷◌, none, some, arith}
use zbluenet.Exchange.{
  Cursor, read_int32v, write_int32v, write_int64v, read_string, write_string, read_list, write_list,
  read_int8, read_int16, write_int8, write_int16, write_int64,
}
use zbluenet.Buffer.Integers.{value16, bytes16}
use zbluenet.Exchange.Codec.{RoundTrip}
use zbluenet.Exchange.Containers.{encoding_list, string-IsCodec}
use zbluenet.Exchange.RoundTrip.{read_list-write_list}

abbrev cursor : Cursor
cursor = record { written = 1 ∷ []; left_bytes = 6 }

write_65535 :
    write_int32v 65535 cursor ≡ some (record { written = 1 ∷ 254 ∷ 255 ∷ 255 ∷ []; left_bytes = 3 })
unfolding write_int32v write_int8 write_int16 bytes16
write_65535 = refl

-- 9 bytes do not fit into 6.
write_no_room : write_int64v (2 ^ 40) cursor ≡ none
unfolding write_int64v write_int8 write_int64
write_no_room = refl

read_65535 : read_int32v (254 ∷ 255 ∷ 255 ∷ 9 ∷ []) ≡ some (65535, 9 ∷ [])
unfolding read_int32v read_int8 read_int16 value16
read_65535 = refl

read_list-write_list_example :
    RoundTrip
      (encoding_list string-IsCodec)
      (write_list write_string)
      (read_list read_string)
      ((7 ∷ []) ∷ [] ∷ [])
      cursor
      (9 ∷ [])
read_list-write_list_example =
    read_list-write_list string-IsCodec ((7 ∷ []) ∷ [] ∷ []) cursor (9 ∷ []) (omega arith)
      (omega arith)
