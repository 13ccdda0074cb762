-- ===== src/Service/Sessions.antt =====
-- The service without a limit of requests, seen as the set of the connections that are open and
-- the calls of handlers.
use zbluenet.Base.{
  ℕ, zero, suc, ◌≤◌, ◌≡◌, refl, sym, ap, ◌∙◌, fun_ext, arith, inl, inr, Bool, true, false, List, [],
  ◌∷◌, ◌++◌, append_assoc, append-nil, Option, some, length, if◌then◌else◌, Bool-cases,
  Option-cases, done, Ends, ends, Ends-bind, Ends-map,
}
use zbluenet.Protocol.{
  MessageApi, NetId, same_id, NetCommand, CommandType, new, message, enable_broadcast,
  disable_broadcast, broadcast, close,
}
use zbluenet.Reactor.Sockets.{is_some}
use zbluenet.Service.Queues.{same_id→eq}
use zbluenet.Service.{
  Service, Call, is_limited, update_id, get_message_handler, handle, on_connect, on_disconnect,
  on_known_message, on_message, process_as, process_net_command, read_commands,
}

module _ (api : MessageApi) where
  open api use {Message}

  -- The connections that are open after a command: NEW opens one, CLOSE closes it.
  abbrev pub opens_as : CommandType → NetId → (NetId → Bool) → NetId → Bool
  opens_as new id f = update_id f id true
  opens_as close id f = update_id f id false
  opens_as _ id f = f

  -- The call that a command leads to: a MESSAGE of an open connection with a handler leads to one.
  abbrev call_of : Bool → Option ℕ → NetCommand Message → List (Call api)
  call_of true (some h) cmd =
      record { handler = h; id = cmd.id; message_id = cmd.message_id; body = cmd.body } ∷ []
  call_of _ _ cmd = []

  abbrev pub calls_as :
      CommandType → (ℕ → Option ℕ) → (NetId → Bool) → NetCommand Message → List (Call api)
  calls_as message handlers f cmd = call_of (f cmd.id) (handlers cmd.message_id) cmd
  calls_as _ handlers f cmd = []

  abbrev pub opens : List (NetCommand Message) → (NetId → Bool) → NetId → Bool
  opens [] f = f
  opens (cmd ∷ cmds) f = opens cmds (opens_as cmd.type cmd.id f)

  abbrev pub calls_for :
      (ℕ → Option ℕ) → List (NetCommand Message) → (NetId → Bool) → List (Call api)
  calls_for handlers [] f = []
  calls_for handlers (cmd ∷ cmds) f =
      calls_as cmd.type handlers f cmd ++ calls_for handlers cmds (opens_as cmd.type cmd.id f)

  -- The connections that the service knows.
  abbrev pub open_in : Service api → NetId → Bool
  open_in s id = is_some (s.connection_infos id)

  record Steps (type : CommandType) (cmd : NetCommand Message) (s t : Service api) : Type 0 where
    open_now : open_in t ≡ opens_as type cmd.id (open_in s)
    calls_now : t.calls ≡ s.calls ++ calls_as type s.message_handlers (open_in s) cmd
    handlers : t.message_handlers ≡ s.message_handlers
    limit : t.max_request_per_second ≡ s.max_request_per_second

  connect_lem :
      (id : NetId) (s : Service api)
      → (open_in (on_connect api id s) ≡ update_id (open_in s) id true)
        × (on_connect api id s
            ≡ record s { connection_infos = (on_connect api id s).connection_infos })
  unfolding on_connect update_id
  connect_lem id s = elim (Option-cases (s.connection_infos id)) [
    | inl e ↦ rw (e, on_connect) (fun_ext (λ j. ground arith), refl)
    | inr (info, e) ↦
        rw (e, on_connect)
          (
            fun_ext (λ j. elim (Bool-cases (same_id id j)) [
              | inl here ↦
                  rw here (ap (λ k. open_in s k) (sym (same_id→eq id j here)) ∙ ap is_some e)
              | inr there ↦ rw there refl
            ]),
            refl,
          )
  ]

  -- What onMessage does when there is no limit.
  unlimited_lem :
      (now : ℕ) (cmd : NetCommand Message) (s : Service api)
      → is_limited s.max_request_per_second ≡ false
      → on_message api now cmd.id cmd.message_id cmd.body s
        ≡ done (if open_in s cmd.id then handle api cmd.id cmd.message_id cmd.body s else s)
  unfolding on_message on_known_message
  unlimited_lem now cmd s off = elim (Option-cases (s.connection_infos cmd.id)) [
    | inl e ↦ rw (e, on_message) refl
    | inr (info, e) ↦ rw (e, on_message, off) refl
  ]

  handle_fields :
      (cmd : NetCommand Message) (s : Service api)
      → let t = handle api cmd.id cmd.message_id cmd.body s in
        (t.connection_infos ≡ s.connection_infos)
        × (t.calls ≡ s.calls ++ call_of true (s.message_handlers cmd.message_id) cmd)
        × (t.message_handlers ≡ s.message_handlers)
        × (t.max_request_per_second ≡ s.max_request_per_second)
  unfolding handle get_message_handler
  handle_fields cmd s = elim (Option-cases (s.message_handlers cmd.message_id)) [
    | inl e ↦ rw (e, handle) (refl, sym (append-nil s.calls), refl, refl)
    | inr (h, e) ↦ rw (e, handle) (refl, refl, refl, refl)
  ]

  handle_lem :
      (cmd : NetCommand Message) (s : Service api) (b : Bool)
      → open_in s cmd.id ≡ b
      → Steps message cmd s (if b then handle api cmd.id cmd.message_id cmd.body s else s)
  handle_lem cmd s true e =
      let (infos, calls, handlers, limit) = handle_fields cmd s in
      record {
        open_now = fun_ext λ j. ap (λ f. is_some (f j)) infos;
        calls_now =
            calls ∙ ap (λ o. s.calls ++ call_of o (s.message_handlers cmd.message_id) cmd) (sym e);
        handlers = handlers;
        limit = limit;
      }
  handle_lem cmd s false e = record {
    open_now = refl;
    calls_now =
        sym (append-nil s.calls)
        ∙ ap (λ o. s.calls ++ call_of o (s.message_handlers cmd.message_id) cmd) (sym e);
    handlers = refl;
    limit = refl;
  }

  same-Steps :
      (type : CommandType) (cmd : NetCommand Message) (s : Service api)
      → opens_as type cmd.id (open_in s) ≡ open_in s
      → calls_as type s.message_handlers (open_in s) cmd ≡ []
      → Steps type cmd s s
  same-Steps type cmd s opened called = record {
    open_now = sym opened;
    calls_now = sym (append-nil s.calls) ∙ ap (λ l. s.calls ++ l) (sym called);
    handlers = refl;
    limit = refl;
  }

  process_as_lem :
      (type : CommandType) (now : ℕ) (cmd : NetCommand Message) (s : Service api)
      → is_limited s.max_request_per_second ≡ false
      → Ends (Steps type cmd s) (process_as api type now cmd s)
  unfolding process_as on_disconnect update_id
  process_as_lem new now cmd s off =
      let (opened, same) = connect_lem cmd.id s in
      ends (record {
        open_now = opened;
        calls_now = ap (λ (x : Service api). x.calls) same ∙ sym (append-nil s.calls);
        handlers = ap (λ (x : Service api). x.message_handlers) same;
        limit = ap (λ (x : Service api). x.max_request_per_second) same;
      })
  process_as_lem close now cmd s off = ends (record {
    open_now = fun_ext λ j. ground arith;
    calls_now = sym (append-nil s.calls);
    handlers = refl;
    limit = refl;
  })
  process_as_lem message now cmd s off =
      rw (unlimited_lem now cmd s off) (ends (handle_lem cmd s (open_in s cmd.id) refl))
  process_as_lem enable_broadcast now cmd s off = ends (same-Steps enable_broadcast cmd s refl refl)
  process_as_lem disable_broadcast now cmd s off =
      ends (same-Steps disable_broadcast cmd s refl refl)
  process_as_lem broadcast now cmd s off = ends (same-Steps broadcast cmd s refl refl)

  -- What the service does with the commands.
  pub record Refines (cmds : List (NetCommand Message)) (s : Service api)
      (out : Service api × List (NetCommand Message)) : Type 0 where
    pub all_read : out.1 ≡ []
    pub opened : open_in out.0 ≡ opens cmds (open_in s)
    pub called : out.0.calls ≡ s.calls ++ calls_for s.message_handlers cmds (open_in s)

  -- Without a limit of requests, the loop of onClientNetCommandQueueRead over as many commands as
  -- it may take does what two functions of the commands say: the connections that are known are
  -- those with a NEW and no CLOSE after it, or known before and not closed, and the handlers are
  -- called, in order, for just the messages of connections that are known at that point, and that
  -- have a handler.
  pub read_commands-Refines :
      (left : ℕ) (clock : ℕ → ℕ) (cmds : List (NetCommand Message)) (s : Service api)
      → is_limited s.max_request_per_second ≡ false
      → length cmds ≤ left
      → Ends (Refines cmds s) (read_commands api left clock cmds s)
  unfolding read_commands process_net_command
  read_commands-Refines left clock [] s off h =
      ends (record { all_read = refl; opened = refl; called = sym (append-nil s.calls) })
  read_commands-Refines zero clock (cmd ∷ cmds) s off h = absurd (omega arith)
  read_commands-Refines (suc left) clock (cmd ∷ cmds) s off h =
      Ends-bind (process_as_lem cmd.type (clock 0) cmd s off) λ t step.
        Ends-map
          (read_commands-Refines left (λ n. clock (suc n)) cmds t (ap is_limited step.limit ∙ off)
            (omega arith))
          λ out r. record {
            all_read = r.all_read;
            opened = r.opened ∙ ap (opens cmds) step.open_now;
            called =
                let front = calls_as cmd.type s.message_handlers (open_in s) cmd in
                let rest = calls_for t.message_handlers cmds (open_in t) in
                let same : rest
                    ≡ calls_for s.message_handlers cmds (opens_as cmd.type cmd.id (open_in s)) =
                  ap (λ g. calls_for g cmds (open_in t)) step.handlers
                  ∙ ap (calls_for s.message_handlers cmds) step.open_now in
                r.called
                ∙ ap (λ c. c ++ rest) step.calls_now
                ∙ append_assoc s.calls front rest
                ∙ ap (λ z. s.calls ++ (front ++ z)) same;
          }
