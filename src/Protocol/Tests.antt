-- ===== src/Protocol/Tests.antt =====
-- NetProtocol with a message class of raw bytes.
use zbluenet.Base.{
  ℕ, refl, false, List, [], ◌∷◌, none, some, arith, length, leb, ◌==◌, if◌then◌else◌, ◌>>=◌, Ends,
}
use zbluenet.Buffer.{Buffer}
use zbluenet.Buffer.Invariant.{IsValid, contents}
use zbluenet.Buffer.Integers.{bytes16}
use zbluenet.Protocol.{MessageApi, NetId, recv_message, write_message, on_recv_message}
use zbluenet.Protocol.Frames.{Sent, parse, Agrees, recv_message_refines}
use zbluenet.Protocol.Receive.{Delivered, Yields, on_recv_message_delivers, on_recv_message-Ends}
use zbluenet.Protocol.Send.{Reread, recv_message-write_message}

-- Message 7 is known; a payload is its own message.
abbrev raw : MessageApi
raw = record {
  Message = List ℕ;
  create = λ message_id. if message_id == 7 then some [] else none;
  encode = λ m room. if leb (length m) room then some m else none;
  decode = λ blank payload. some payload;
}

abbrev connection : NetId
connection = record { reactor_id = 1; socket_id = 4 }

-- Two frames and the start of a third.
abbrev arrived : Buffer
arrived = record {
  buffer = 9 ∷ 0 ∷ 7 ∷ 0 ∷ 2 ∷ 5 ∷ 6 ∷ 0 ∷ 7 ∷ 0 ∷ 0 ∷ 0 ∷ 7 ∷ 0 ∷ 0 ∷ [];
  expand_size = 8;
  read_index = 1;
  write_index = 14;
}

arrived-IsValid : IsValid arrived
arrived-IsValid = omega arith

abbrev sent : List (Sent raw 100)
sent =
    record { message_id = 7; payload = 5 ∷ 6 ∷ []; body = 5 ∷ 6 ∷ [] }
    ∷ record { message_id = 7; payload = []; body = [] }
    ∷ []

recv_message_refines_example :
    Ends (Agrees raw 100 arrived (parse raw 100 (contents arrived))) (recv_message raw 100 arrived)
recv_message_refines_example = recv_message_refines raw 100 arrived arrived-IsValid

on_recv_message_delivers_example :
    Ends
      (Yields raw 100 connection (Delivered raw 100 connection arrived sent false (0 ∷ 7 ∷ 0 ∷ [])))
      (on_recv_message raw 100 connection arrived)
unfolding bytes16 parse
on_recv_message_delivers_example =
    on_recv_message_delivers raw 100 connection sent arrived (0 ∷ 7 ∷ 0 ∷ []) false arrived-IsValid
      (
        record {
          id_fits = omega arith;
          length_fits = omega arith;
          within = omega arith;
          opens = refl;
        },
        (
          record {
            id_fits = omega arith;
            length_fits = omega arith;
            within = omega arith;
            opens = refl;
          },
          tt,
        ),
      )
      refl refl

on_recv_message-Ends_example :
    Ends
      (Yields raw 100 connection (λ d. IsValid d.buffer))
      (on_recv_message raw 100 connection arrived)
on_recv_message-Ends_example = on_recv_message-Ends raw 100 connection arrived arrived-IsValid

recv_message-write_message_example :
    Ends
      (Reread raw 100 7 (5 ∷ 6 ∷ []))
      (write_message raw 7 (5 ∷ 6 ∷ []) arrived >>= λ (ok, r). recv_message raw 100 r)
recv_message-write_message_example =
    recv_message-write_message raw 100 7 (5 ∷ 6 ∷ []) (5 ∷ 6 ∷ []) arrived (5 ∷ 6 ∷ [])
      arrived-IsValid (omega arith) (omega arith) (omega arith) refl (omega arith) (omega arith)
      refl
