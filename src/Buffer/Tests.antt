-- ===== src/Buffer/Tests.antt =====
-- DynamicBuffer on concrete inputs.
use zbluenet.Base.{
  ℕ, ◌+◌, ◌<◌, ◌≤◌, get_or, take, drop, ◌-◌, ◌^◌, ◌≡◌, refl, List, [], ◌∷◌, arith, none, some, true,
  false, done, fault, ◌>>=◌, Ends,
}
use zbluenet.Buffer.{Buffer, reserve_writable_bytes, write_bytes, read_bytes}
use zbluenet.Buffer.Invariant.{IsValid, contents}
use zbluenet.Buffer.Growth.{Reserved, reserve_lem}
use zbluenet.Buffer.Fifo.{Appended}
use zbluenet.Buffer.Integers.{peek_int8, bytes16}
use zbluenet.Buffer.Integers.Laws.{
  int16, int32, int64, write_int, read_int, bytes_of, Got, write_int_lem, read_int_lem,
  read_int-short, peek_with-wraps,
}
use zbluenet.Buffer.Runs.{
  Op, put, get, run, run_queue, run_refines, Field, read_fields, write_fields,
  read_fields-write_fields,
}

abbrev small : Buffer
small = record { buffer = 7 ∷ 1 ∷ 2 ∷ 0 ∷ []; expand_size = 2; read_index = 1; write_index = 3 }

-- Free bytes at the front only: `size - free_bytes` wraps when 3 bytes are asked for.
abbrev wrapping : Buffer
wrapping = record {
  buffer = 7 ∷ 8 ∷ 9 ∷ 1 ∷ 2 ∷ [];
  expand_size = 1;
  read_index = 3;
  write_index = 5;
}

small-IsValid : IsValid small
small-IsValid = omega arith

wrapping-IsValid : IsValid wrapping
wrapping-IsValid = omega arith

-- The storage may even shrink.
reserve_wraps :
    reserve_writable_bytes wrapping 1
    ≡ done
        (record { buffer = 1 ∷ 2 ∷ 0 ∷ 0 ∷ []; expand_size = 1; read_index = 0; write_index = 2 })
unfolding reserve_writable_bytes
reserve_wraps = refl

reserve_lem_example :
    Ends (Reserved wrapping 1 wrapping-IsValid) (reserve_writable_bytes wrapping 1)
reserve_lem_example = reserve_lem wrapping 1 wrapping-IsValid (omega arith)

write_int_lem_example :
    Ends (Appended small (bytes_of int32 false 0x01020304)) (write_int int32 false 0x01020304 small)
write_int_lem_example = write_int_lem int32 false 0x01020304 small small-IsValid (omega arith)

read_int_lem_example : Ends (Got 0x0102 []) (read_int int16 false small)
unfolding bytes16
read_int_lem_example = read_int_lem int16 false 0x0102 [] small small-IsValid (omega arith) refl

read_int-short_example : read_int int32 true small ≡ done (none, small)
read_int-short_example = read_int-short int32 true small small-IsValid (omega arith)

abbrev script : List Op
script = get 1 ∷ put (3 ∷ 4 ∷ 5 ∷ []) ∷ get 3 ∷ get 9 ∷ []

run-script : run small script ≡ done ((1 ∷ []) ∷ (2 ∷ 3 ∷ 4 ∷ []) ∷ (5 ∷ []) ∷ [])
unfolding run read_bytes write_bytes
run-script = refl

run_refines_example : run small script ≡ done (run_queue (contents small) script)
run_refines_example = run_refines script small small-IsValid (omega arith)

abbrev fields : List Field
fields =
    record { width = int16; little_endian = false; value = 0xabcd }
    ∷ record { width = int64; little_endian = true; value = 2 ^ 64 - 1 }
    ∷ []

abbrev empty : Buffer
empty = record { buffer = 0 ∷ 0 ∷ []; expand_size = 1; read_index = 0; write_index = 0 }

read_fields-write_fields_example :
    Ends
      (λ out. (out.0 ≡ some 0xabcd ∷ some (2 ^ 64 - 1) ∷ []) × (contents out.1 ≡ []))
      (write_fields empty fields >>= λ r. read_fields r fields)
read_fields-write_fields_example =
    read_fields-write_fields fields empty (omega arith) refl (omega arith) (omega arith)

-- The offset is one before the read index: the byte that was read last is peeked again.
peek_with-wraps_example :
    (1 + (2 ^ 64 - 1) < 2 ^ 64 → peek_int8 small (2 ^ 64 - 1) ≡ fault)
    × (2 ^ 64 ≤ 1 + (2 ^ 64 - 1)
        → (at : ℕ) × (at + 2 ^ 64 ≡ 1 + (2 ^ 64 - 1))
          × (at < 1)
          × (peek_int8 small (2 ^ 64 - 1)
              ≡ done (some (get_or (take 1 (drop at small.buffer)) 0 0))))
unfolding peek_int8
peek_with-wraps_example =
    peek_with-wraps 1 _ small small-IsValid (2 ^ 64 - 1) (omega arith) (omega arith) (omega arith)
