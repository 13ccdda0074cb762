-- ===== src/Service/Delivery.antt =====
-- From the service to the wire: a message that the service sends, through the queue of the net
-- thread and its loop, to the connection. And the timers of the service.
use zbluenet.Base.{
  ℕ, ◌+◌, ◌%◌, ◌^◌, ◌<◌, ◌≡◌, refl, ap, ◌∙◌, arith, true, List, [], ◌∷◌, ◌++◌, Option, some, length,
  get_or, Outcome, ◌>>=◌, Ends, ends, Ends-bind, Ends-inv,
}
use zbluenet.Base.Int.{ℤ}
use zbluenet.Time.{Timestamp, add_millisecond}
use zbluenet.Time.Laws.{IsNormal}
use zbluenet.Timers.{at_least_zero}
use zbluenet.Timers.Valid.{IsValid, view}
use zbluenet.Timers.Add.{add_timer_lem}
use zbluenet.Timers.Remove.{remove_timer_lem}
use zbluenet.Protocol.{MessageApi, NetId, NetCommand, message}
use zbluenet.Protocol.Frames.{frame_bytes}
use zbluenet.Reactor.{is_connected_socket}
use zbluenet.NetThread.{Round, NetThread, on_net_command}
use zbluenet.NetThread.Encoding.{IsRound, Fits, IsAlive, room_of}
use zbluenet.NetThread.Broadcasts.{Gets}
use zbluenet.NetThread.Loop.{Room, is_due, process_lem}
use zbluenet.Service.{Service, send_message, start_timer, stop_timer}
use zbluenet.Service.Queues.{push_lem}

module _ (api : MessageApi) where
  open api use {Message, encode}

  -- A message sent by the service, with the handling of the queue that it is put in.
  abbrev pub send_and_handle :
      (ℕ → Round)
      → NetId
      → ℕ
      → Message
      → Service api
      → NetThread api
      → Outcome (NetThread api × List (Option (NetCommand Message)))
  send_and_handle rounds id message_id m s t = send_message api id message_id (some m) s >>= λ u.
      on_net_command api rounds (get_or u.queues id.reactor_id []) t

  -- The frame of the message is sent to the connection.
  pub record Reaches (rounds : ℕ → Round) (id : NetId) (message_id : ℕ) (payload : List ℕ)
      (t : NetThread api) (out : NetThread api × List (Option (NetCommand Message))) : Type 0 where
    pub alive : IsAlive api out.0
    pub emptied : out.1 ≡ []
    pub told_kept : out.0.told ≡ t.told
    pub gets : Gets api (rounds 0) (frame_bytes (message_id % 2 ^ 16) payload) id.socket_id t out.0

  -- A message that the service sends to a connected socket of a live net thread whose queue is
  -- empty, and that encodes, is sent, if ids are left for the timers of errors and the socket takes
  -- no more than it is given: the thread's loop takes it off the queue, and the bytes of
  -- its frame that `::send` takes go behind those on their way to the socket. Then as many bytes
  -- from the start of the frame as were not taken go behind these, or the connection fails and a
  -- timer waits that is to report its error. The service is told nothing, and the thread stays
  -- live.
  pub send_message-Reaches :
      (rounds : ℕ → Round) (id : NetId) (message_id : ℕ) (m : Message) (payload : List ℕ)
      (s : Service api) (t : NetThread api)
      → Fits api
      → IsRound (rounds 0)
      → IsAlive api t
      → Room api t
      → id.reactor_id < length s.queues
      → get_or s.queues id.reactor_id [] ≡ []
      → is_connected_socket id.socket_id t.reactor ≡ true
      → encode m (room_of api t) ≡ some payload
      → Ends (Reaches rounds id message_id payload t) (send_and_handle rounds id message_id m s t)
  unfolding send_message on_net_command is_due
  send_message-Reaches rounds id message_id m payload s t fits h v room served idle up encodes =
      let cmd : NetCommand Message = record {
        type = message;
        id = id;
        message_id = message_id;
        body = some m;
      } in
      Ends-bind (push_lem api cmd s served) λ u p.
        let queue : get_or u.queues id.reactor_id [] ≡ some cmd ∷ [] =
          p.queued.got ∙ ap (λ l. l ++ some cmd ∷ []) idle in
        rw queue (
          Ends-bind (process_lem api (rounds 0) cmd t fits h v (λ _. (m, refl)) room) λ w q.
            let sent = q.due up m refl in
            let (told, gets) = sent.sends payload encodes in
            ends (record { alive = q.alive; emptied = refl; told_kept = told; gets = gets }))

  -- Starting and then stopping a timer.
  abbrev pub start_then_stop : Timestamp → ℤ → ℤ → Service api → Outcome (Service api)
  start_then_stop now timeout_ms call_times s =
      start_timer api now timeout_ms call_times s >>= λ (id, u). stop_timer api id u

  -- stopTimer looks for the timer in another heap than the one that startTimer has put it in: the
  -- timer is still there after it has been stopped.
  pub start_timer-stop_timer :
      (now : Timestamp) (timeout_ms call_times : ℤ) (s : Service api)
      → IsValid s.own_timers
      → IsValid s.epoll_timers
      → IsNormal now
      → s.epoll_timers.timer_id + 1 < 2 ^ 63
      → Ends
          (λ w.
            view w.epoll_timers (s.epoll_timers.timer_id + 1)
            ≡ some (
              add_millisecond now (at_least_zero timeout_ms),
              at_least_zero timeout_ms,
              call_times,
            ))
          (start_then_stop now timeout_ms call_times s)
  unfolding start_timer stop_timer
  start_timer-stop_timer now timeout_ms call_times s own epoll normal room =
      let next = s.epoll_timers.timer_id + 1 in
      let ((t, heap), ran, (named, _, _, views)) =
        Ends-inv (add_timer_lem now timeout_ms call_times s.epoll_timers epoll normal room) in
      rw (ran, named)
        (Ends-bind (remove_timer_lem s.own_timers next own)
          λ left _. ends (views next ∙ ground arith))
