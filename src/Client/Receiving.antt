-- ===== src/Client/Receiving.antt =====
-- What a client does with the bytes that have arrived.
use zbluenet.Base.{◌+◌, ◌^◌, ◌<◌, ◌≡◌, refl, sym, subst, Ends-inv, Ends, ends, Ends-bind, some}
use zbluenet.Time.{Timestamp}
use zbluenet.Time.Laws.{IsNormal}
use zbluenet.Buffer.{Buffer}
use zbluenet.Buffer.Invariant.{IsValid, contents}
use zbluenet.Protocol.{MessageApi, Received}
use zbluenet.Protocol.Frames.{Parsed, failed, more, frame, parse, Agrees, recv_message_refines}
use zbluenet.NetThread.Encoding.{IsAlive}
use zbluenet.Client.{
  Client, Drained, returned, bad_function_call, max_packet_length, on_close, after_recv,
  on_recv_message,
}
use zbluenet.Client.Reconnect.{Reconnects, on_close_lem}

module _ (api : MessageApi) where
  open api use {Message}

  -- By what stands at the front of the bytes.
  abbrev pub Drains : Timestamp → Client api → Buffer → Parsed Message → Drained api → Type 0
  Drains now c b more out = out ≡ returned c b
  Drains now c b failed out = (d : Client api) × (out ≡ returned d b) × Reconnects api now c d
  Drains now c b (frame message_id m rest) (returned d r) = ⊥
  Drains now c b (frame message_id m rest) (bad_function_call cmd r) =
      (cmd.message_id ≡ message_id) × (cmd.body ≡ some m) × (contents r ≡ rest)

  -- A client on a live thread, with an id left for a timer, that reads a valid buffer does nothing
  -- to a part of a frame, closes its connection and waits for a timer at what is not a frame, and
  -- at the first whole frame calls the function that nothing has set.
  pub on_recv_message-Drains :
      (now : Timestamp) (b : Buffer) (c : Client api)
      → IsNormal now
      → IsValid b
      → IsAlive api c.thread
      → c.thread.reactor.timer_heap.timer_id + 1 < 2 ^ 63
      → Ends
          (Drains now c b (parse api max_packet_length (contents b)))
          (on_recv_message api now b c)
  unfolding on_recv_message on_close
  on_recv_message-Drains now b c normal valid v room =
      Ends-bind (recv_message_refines api max_packet_length b valid)
        λ out q. drained (parse api max_packet_length (contents b)) out q
    where
      drained :
          (p : Parsed Message) (out : Received Message × Buffer)
          → Agrees api max_packet_length b p out
          → Ends (Drains now c b p) (after_recv api now c out)
      drained more out q =
          subst (λ o. Ends (Drains now c b more) (after_recv api now c o)) (sym q) (ends refl)
      drained failed out q =
          let (d, ran, waits) = Ends-inv (on_close_lem api now c normal v room) in
          subst (λ o. Ends (Drains now c b failed) (after_recv api now c o)) (sym q)
            (rw ran (ends (d, refl, waits)))
      drained (frame message_id m rest) (got, r) (e, _, left, _, _) =
          subst (λ o. Ends (Drains now c b (frame message_id m rest)) (after_recv api now c (o, r)))
            (sym e) (ends (refl, refl, left))
