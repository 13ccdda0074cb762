-- ===== src/Epoll/Reactor/Turn.antt =====
-- A round of the poller of a reactor: every event of its sockets is handled.
use zbluenet.Base.{
  ℕ, suc, ◌≤◌, ◌≡◌, refl, subst, arith, inl, inr, Bool, true, false, List, [], ◌∷◌, All, some,
  length, ◌==◌, Bool-cases, Option-cases, Outcome, Ends, ends, Ends-bind,
}
use zbluenet.Buffer.{Buffer}
use zbluenet.Buffer.Invariant.{max_size}
use zbluenet.Connection.{Connection, set_error, SendResult}
use zbluenet.Connection.Reading.{Arrival, Handled, Read}
use zbluenet.Connection.Receiving.{IsFitting, growth}
use zbluenet.Reactor
use zbluenet.Epoll.{
  Epoller, Kind, Ready, Interest, events, read_kind, error_kind, del, detach_io_service,
}
use zbluenet.Epoll.Rounds.{Keeps, do_event_lem}
use zbluenet.Epoll.Reactor.{
  EpollReactor, close_socket_in, store, on_socket_error, after_socket_read, on_read, call_back,
  calling, poll, Reach,
}
use zbluenet.Epoll.Reactor.Deaf.{reach-IsDeaf}
use zbluenet.Epoll.Reactor.Roomy.{IsHandling, IsRoomy, IsRoomy-fewer, Lasts, read-Lasts}

module _ (Output : Type 0) (cb : Buffer → Outcome (Handled Output))
    (read_max_size expand_size most : ℕ) (arrivals : ℕ → List Arrival) (answer : ℕ → SendResult)
    (socket_error : ℕ → ℕ) where
  abbrev pub Good : ℕ → EpollReactor → Type 0
  Good n r =
      (id : ℕ) (c : Connection)
      → r.reactor.connections id ≡ some c
      → IsRoomy expand_size most n c.read_buffer

  fewer : (n : ℕ) (r : EpollReactor) → Good (suc n) r → Good n r
  fewer n r v id c e = IsRoomy-fewer expand_size most n c.read_buffer (v id c e)

  abbrev poller : EpollReactor → Epoller
  poller r = r.epoller

  abbrev with_poller : Epoller → EpollReactor → EpollReactor
  with_poller e r = record r { epoller = e }

  abbrev alive : ℕ → EpollReactor → Bool
  alive id r = r.reactor.sockets id

  abbrev back : Kind → ℕ → EpollReactor → Outcome EpollReactor
  back = call_back Output cb read_max_size arrivals answer socket_error

  abbrev After : ℕ → EpollReactor → EpollReactor → Type 0
  After n r t = Good n t × Keeps poller with_poller back alive r t

  close-After : (n id : ℕ) (r : EpollReactor) → Good n r → After n r (close_socket_in true id r)
  unfolding close_socket_in detach_io_service del Reactor.close
  close-After n id r v = elim (Bool-cases (r.reactor.sockets id)) [
    | inl up ↦
        rw (up, close_socket_in)
          (
            (λ j c e. v j c (ground (arith, e))),
            λ j known. elim (Bool-cases (id == j)) [
              | inl here ↦ inr (ground (arith, here))
              | inr there ↦ elim known [
                | inl a ↦ inl (ground (arith, there, a))
                | inr gone ↦ inr (ground (arith, there, gone))
              ]
            ],
          )
    | inr down ↦ rw (down, close_socket_in) (v, λ j known. known)
  ]

  store-Good :
      (n id : ℕ) (c : Connection) (r : EpollReactor)
      → IsRoomy expand_size most n c.read_buffer
      → Good n r
      → Good n (store id c r)
  unfolding store
  store-Good n id c r fits v j d e = elim (Bool-cases (id == j)) [
    | inl here ↦
        subst (λ (x : Connection). IsRoomy expand_size most n x.read_buffer) {x = c} {y = d}
          (grind (arith, here, e)) fits
    | inr there ↦ v j d (grind (arith, there, e))
  ]

  store-After :
      (n id : ℕ) (c : Connection) (r : EpollReactor)
      → IsRoomy expand_size most n c.read_buffer
      → Good n r
      → After n r (close_socket_in true id (store id c r))
  unfolding store
  store-After n id c r fits v = close-After n id (store id c r) (store-Good n id c r fits v)

  error-After :
      (n id err : ℕ) (r : EpollReactor) → Good n r → After n r (on_socket_error true id err r)
  unfolding on_socket_error set_error
  error-After n id err r v = elim (Option-cases (r.reactor.connections id)) [
    | inl e ↦ rw (e, on_socket_error) (v, λ j known. known)
    | inr (c, e) ↦ rw (e, on_socket_error) (store-After n id (set_error err c) r (v id c e) v)
  ]

  read-After :
      (n id : ℕ) (r : EpollReactor) (result : Read Output)
      → Lasts expand_size most n result.connection
      → Good n r
      → After n r (after_socket_read Output cb read_max_size true id r result)
  unfolding after_socket_read store
  read-After n id r result lasts v = elim (Option-cases result.connection) [
    | inl e ↦ rw (e, after_socket_read) (close-After n id r v)
    | inr (c, e) ↦ elim (Bool-cases result.success) [
      | inl ok ↦ rw (e, after_socket_read, ok) (store-Good n id c r (lasts c e) v, λ j known. known)
      | inr failed ↦ rw (e, after_socket_read, failed) (store-After n id c r (lasts c e) v)
    ]
  ]

  module _ (handles : IsHandling Output cb) (small : read_max_size ≤ max_size)
      (fit : (id : ℕ) → All IsFitting (arrivals id))
      (few : (id : ℕ) → growth expand_size (arrivals id) ≤ most) where
    on_read-After :
        (n id : ℕ) (r : EpollReactor)
        → Good (suc n) r
        → Ends (After n r) (on_read Output cb read_max_size true (arrivals id) id r)
    unfolding on_read
    on_read-After n id r v = elim (Option-cases (r.reactor.connections id)) [
      | inl e ↦ rw (e, on_read) (ends (fewer n r v, λ j known. known))
      | inr (c, e) ↦
          rw (e, on_read)
            (Ends-bind
              (read-Lasts expand_size most Output cb read_max_size handles n (arrivals id) c small
                (fit id) (few id) (v id c e))
              λ result lasts. ends (read-After n id r result lasts (fewer n r v)))
    ]

    reads :
        (n id : ℕ) (r : EpollReactor)
        → Good (suc n) r
        → alive id r ≡ true
        → Ends (After n r) (back read_kind id r)
    unfolding call_back calling
    reads n id r v up = rw up (on_read-After n id r v)

    fails :
        (n id : ℕ) (r : EpollReactor)
        → Good n r
        → alive id r ≡ true
        → Ends (After n r) (back error_kind id r)
    unfolding call_back calling
    fails n id r v up = rw up (ends (error-After n id (socket_error id) r v))

    -- The poller reports events of sockets in the map, and EPOLLOUT only of a device that it was
    -- told to watch for it.
    abbrev pub IsReported : EpollReactor → Ready → Type 0
    IsReported r e =
        (r.reactor.sockets e.device ≡ true)
        × (e.output ≡ true
            → (i : Interest) × (r.epoller.interests e.device ≡ some i) × (i.output ≡ true))

    quiet :
        (ready : List Ready) (r : EpollReactor)
        → Reach Output cb read_max_size r
        → All (IsReported r) ready
        → All (λ (e : Ready). (alive e.device r ≡ true) × (e.output ≡ false)) ready
    quiet [] r reached all = tt
    quiet (e ∷ rest) r reached ((up, watched), all) = (
      (
        up,
        elim (Bool-cases e.output) [
          | inl out ↦
              let (i, held, output) = watched out in
              absurd (
                grind (arith, reach-IsDeaf Output cb read_max_size reached e.device i held, output))
          | inr none_out ↦ none_out
        ],
      ),
      quiet rest r reached all,
    )

    -- Take a reactor that is reached from one that watches nothing, events of its sockets as the
    -- poller reports them, an application's callback that returns and closes no socket but its own,
    -- sockets that give no more bytes than they are asked for, and read buffers with room for what
    -- is read. If `epoll_ctl` takes every device out that it is told to, doEvent returns: no
    -- callback is called of a socket that an earlier callback of the round has closed, and none
    -- that is not set. It ends with no device marked as removed, and with every read buffer valid.
    pub poll_lem :
        (ready : List Ready) (r : EpollReactor)
        → Reach Output cb read_max_size r
        → Good (length ready) r
        → All (IsReported r) ready
        → Ends
            (λ out.
              (out.0 ≡ true)
              × ((id : ℕ) → out.1.epoller.removed_io_devices id ≡ false)
              × Good 0 out.1)
            (poll Output cb read_max_size arrivals answer socket_error (events ready) r)
    unfolding poll
    poll_lem ready r reached v all =
        do_event_lem poller with_poller back alive Good fewer reads fails (λ e s. refl)
          (λ e s good. good) ready r v (quiet ready r reached all)
