-- ===== src/Service/Frequency.antt =====
-- The limit of requests per second: what a burst of messages of one connection leads to.
use zbluenet.Base.{
  ℕ, zero, suc, ◌+◌, ◌<◌, ◌≡◌, Bool, List, [], ◌∷◌, ◌++◌, Option, some, length, replicate, min, leb,
  if◌then◌else◌, Outcome, done,
}
use zbluenet.Base.Int.{pos}
use zbluenet.Protocol.{MessageApi, NetId, NetCommand, message}
use zbluenet.Reactor.Sockets.{is_some}
use zbluenet.Service.{
  Service, Call, ConnectionInfo, disconnect, handle, with_info, on_exceed_request_frequency_limit,
  read_commands,
}

module _ (api : MessageApi) (now limit handler : ℕ) (id : NetId) (message_id : ℕ)
    (body : Option api.Message) where
  open api use {Message}

  abbrev request : NetCommand Message
  request = record { type = message; id = id; message_id = message_id; body = body }

  abbrev call : Call api
  call = record { handler = handler; id = id; message_id = message_id; body = body }

  -- The limit is set, the message has a handler, and the connection's net thread exists.
  pub record IsServed (s : Service api) : Type 0 where
    pub limited : s.max_request_per_second ≡ pos limit
    pub handled : s.message_handlers message_id ≡ some handler
    pub served : id.reactor_id < length s.queues

  -- The service after a message that is handled.
  abbrev handled_once : ConnectionInfo → Service api → Service api
  handled_once info s = handle api id message_id body (with_info api id info s)

  -- What onMessage does after the check.
  abbrev checked : Service api → Bool × ConnectionInfo → Outcome (Service api)
  checked s (refused, counted) =
      if refused
      then disconnect api id (on_exceed_request_frequency_limit api id (with_info api id counted s))
      else done (handled_once counted s)

  -- The number of requests of this second.
  abbrev counting : ℕ → ConnectionInfo
  counting n = record { last_request_second = now; request_per_second = n }

  -- What a burst of messages leaves, when `left` of them are let through.
  abbrev Passed : ℕ → ℕ → Service api → Service api → Type 0
  Passed k left s u =
      (u.calls ≡ s.calls ++ replicate (min k left) call)
      × (is_some (u.connection_infos id) ≡ leb k left)
      × (u.exceeded ≡ s.exceeded ++ (if leb k left then [] else id ∷ []))

  abbrev pub Answered : ℕ → Service api → Service api → Type 0
  Answered k s u = Passed k (limit + 1) s u

  abbrev Burst : ℕ → ℕ → Service api → Service api × List (NetCommand Message) → Type 0
  Burst k left s (u, rest) = (rest ≡ []) × Passed k left s u

  abbrev burst : ℕ → Service api → Outcome (Service api × List (NetCommand Message))
  burst k s = read_commands api k (λ _. now) (replicate k request) s

  fewer : ℕ → ℕ → ℕ
  fewer zero k = 0
  fewer (suc left) zero = 0
  fewer (suc left) (suc k) = suc (fewer left k)
