-- ===== src/Connection/Tests.antt =====
-- A connection that sends and receives, with a message class of raw bytes.
use zbluenet.Base.{
  ◌+◌, ℕ, ◌≡◌, refl, true, false, List, [], ◌∷◌, none, some, arith, length, leb, ◌==◌,
  if◌then◌else◌, ◌>>=◌, Ends, done, inl, inr, take, ◌++◌,
}
use zbluenet.Base.Int.{pos}
use zbluenet.Buffer.{new, store, write, reserve_writable_bytes}
use zbluenet.Buffer.Integers.{bytes16}
use zbluenet.Protocol.{MessageApi, NetId}
use zbluenet.Protocol.Frames.{Sent, parse}
use zbluenet.Protocol.Receive.{commands_of}
use zbluenet.Connection.{
  Connection, connect, send_message, after_send, queue_message, append_message, copy_in,
  on_socket_write, took,
}
use zbluenet.Connection.Reading.{Arrival, received, read_loop}
use zbluenet.Connection.Sending.{IsSound, outgoing, Sends, send_message_lem}
use zbluenet.Connection.Flushing.{Flushes, on_socket_write_lem}
use zbluenet.Connection.Receiving.{Received, growth, read_loop_lem}
use zbluenet.Connection.Session.{on_socket_reads}
use zbluenet.Connection.Fragments.{on_socket_reads_deliver}

-- Nothing sent, four bytes of room in either buffer.
abbrev idle : Connection
idle = connect 4 4 4 4

idle-IsSound : IsSound idle
unfolding connect new
idle-IsSound = record { buffer = omega arith; armed = inl refl }

-- The socket takes one byte of three: the first is sent again, the last is not.
repeated :
    (send_message 0 (1 ∷ 2 ∷ 3 ∷ []) none (took 1) idle >>= λ s. done (outgoing s.connection))
    ≡ done (1 ∷ 1 ∷ 2 ∷ [])
unfolding connect new send_message after_send queue_message append_message copy_in store write
    reserve_writable_bytes
repeated = refl

send_message_lem_example :
    Ends
      (Sends 0 none idle (take 1 (1 ∷ 2 ∷ 3 ∷ []) ++ take 2 (1 ∷ 2 ∷ 3 ∷ [])) (1 ∷ []))
      (send_message 0 (1 ∷ 2 ∷ 3 ∷ []) none (took 1) idle)
unfolding connect new
send_message_lem_example =
    send_message_lem 0 (1 ∷ 2 ∷ 3 ∷ []) none idle idle-IsSound (omega arith) (took 1) refl
      (omega arith)

abbrev waiting : Connection
waiting = record idle {
  write_callback = true;
  write_buffer = record {
    buffer = 1 ∷ 2 ∷ 3 ∷ 0 ∷ [];
    expand_size = 4;
    read_index = 0;
    write_index = 3;
  };
}

on_socket_write_lem_example : Ends (Flushes waiting) (on_socket_write (took 2) waiting)
on_socket_write_lem_example =
    on_socket_write_lem (took 2) waiting (record { buffer = omega arith; armed = inr refl })

abbrev chunk : List ℕ → Arrival
chunk bytes = record { readable = pos (length bytes); answer = received bytes }

read_loop_lem_example :
    Ends
      (Received 6
        (length idle.read_buffer.buffer
          + growth idle.read_buffer.expand_size (chunk (1 ∷ 2 ∷ []) ∷ chunk (3 ∷ []) ∷ []))
        idle.read_buffer)
      (read_loop 6 (chunk (1 ∷ 2 ∷ []) ∷ chunk (3 ∷ []) ∷ []) false idle.read_buffer)
unfolding connect new
read_loop_lem_example =
    read_loop_lem 6 (chunk (1 ∷ 2 ∷ []) ∷ chunk (3 ∷ []) ∷ []) false idle.read_buffer (omega arith)
      (omega arith) (omega arith, (omega arith, tt)) (omega arith)

abbrev bytes_api : MessageApi
bytes_api = record {
  Message = List ℕ;
  create = λ message_id. if message_id == 7 then some [] else none;
  encode = λ m room. if leb (length m) room then some m else none;
  decode = λ blank payload. some payload;
}

abbrev peer : NetId
peer = record { reactor_id = 1; socket_id = 4 }

abbrev messages : List (Sent bytes_api 100)
messages = record { message_id = 7; payload = 5 ∷ 6 ∷ []; body = 5 ∷ 6 ∷ [] } ∷ []

-- The frame in two parts, cut in its header.
abbrev parts : List (List Arrival)
parts = (chunk (0 ∷ 7 ∷ 0 ∷ []) ∷ []) ∷ (chunk (2 ∷ []) ∷ chunk (5 ∷ 6 ∷ []) ∷ []) ∷ []

on_socket_reads_deliver_example :
    Ends
      (λ commands. commands ≡ commands_of bytes_api 100 peer messages)
      (on_socket_reads bytes_api 100 peer parts idle)
unfolding connect new bytes16 parse
on_socket_reads_deliver_example =
    on_socket_reads_deliver bytes_api 100 peer parts idle messages (omega arith)
      (
        ((omega arith, refl, omega arith), tt),
        (((omega arith, refl, omega arith), ((omega arith, refl, omega arith), tt)), tt),
      )
      (omega arith, (omega arith, tt)) (omega arith)
      (
        record {
          id_fits = omega arith;
          length_fits = omega arith;
          within = omega arith;
          opens = refl;
        },
        tt,
      )
      refl refl
