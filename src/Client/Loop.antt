-- ===== src/Client/Loop.antt =====
-- The loop of a client's onNetCommand over its queue.
use zbluenet.Base.{ℕ, ◌+◌, ◌≤◌, ◌≡◌, ◌≢◌, ◌⊎◌, Bool, true, false, List, [], ◌∷◌, Option, none, some}
use zbluenet.Base.Int.{pos}
use zbluenet.Buffer.Invariant.{contents}
use zbluenet.Timers.Valid.{view}
use zbluenet.Protocol.{MessageApi, NetCommand, message}
use zbluenet.Reactor.Delivery.{Delivered}
use zbluenet.NetThread.{Round, NetThread}
use zbluenet.NetThread.Encoding.{IsAlive}
use zbluenet.NetThread.Loop.{after_null}
use zbluenet.Client.{Client}

module _ (api : MessageApi) where
  open api use {Message, encode}

  -- The connection is closed, and a timer waits that opens it again.
  abbrev pub IsWaiting : Client api → Type 0
  IsWaiting c =
      (c.connected ≡ false)
      × (id : ℕ) × (c.reconnect_timer ≡ pos id)
      × (view c.thread.reactor.timer_heap id ≢ none)

  record Sent (round : Round) (c : Client api) (out : Bool × Client api) : Type 0 where
    alive : IsAlive api out.1.thread
    counted : out.1.thread.reactor.timer_heap.timer_id ≤ c.thread.reactor.timer_heap.timer_id + 1
    same : out.1 ≡ record c { thread = record (c.thread) { reactor = out.1.thread.reactor } }
    delivered :
        Delivered c.socket_id
          (contents c.thread.encode_buffer)
          (round.answer c.socket_id (contents c.thread.encode_buffer))
          c.thread.reactor
          (out.0, out.1.thread.reactor)

  -- What a round of the loop leaves: it goes on, with the same connection, or the client waits.
  record Handled (c : Client api) (out : Bool × Client api) : Type 0 where
    alive : IsAlive api out.1.thread
    counted :
        out.0 ≡ true
        → out.1.thread.reactor.timer_heap.timer_id ≤ c.thread.reactor.timer_heap.timer_id + 1
    stopped : out.0 ≡ false → IsWaiting out.1

  -- A MESSAGE has a body.
  abbrev pub HasBody : NetCommand Message → Type 0
  HasBody cmd = cmd.type ≡ message → (m : Message) × (cmd.body ≡ some m)

  abbrev pub AllBodies : List (Option (NetCommand Message)) → Type 0
  AllBodies [] = Unit
  AllBodies (none ∷ queue) = Unit
  AllBodies (some cmd ∷ queue) = HasBody cmd × AllBodies queue

  -- What onNetCommand leaves.
  abbrev pub Emptied :
      List (Option (NetCommand Message)) → Client api × List (Option (NetCommand Message)) → Type 0
  Emptied queue (d, rest) = IsAlive api d.thread × ((rest ≡ after_null api queue) ⊎ IsWaiting d)
