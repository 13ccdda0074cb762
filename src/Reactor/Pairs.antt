-- ===== src/Reactor/Pairs.antt =====
-- The two maps between sockets and the timers that report their errors.
use zbluenet.Base.{
  ℕ, ◌+◌, ◌^◌, ◌<◌, ◌≡◌, ◌≢◌, refl, sym, subst, arith, Option, none, some, inl, inr, Ends, ends,
  Ends-inv, Option-cases, Bool-cases, ◌∙◌, ◌==◌, if◌then◌else◌,
}
use zbluenet.Base.Int.{ℤ, pos, same_int_refl, same_int→eq}
use zbluenet.Time.{Timestamp, add_millisecond}
use zbluenet.Time.Laws.{IsNormal}
use zbluenet.Timers.{at_least_zero}
use zbluenet.Timers.Valid.{IsValid, view}
use zbluenet.Timers.Add.{add_timer_lem}
use zbluenet.Reactor.{
  Reactor, pair, unpair, start_timer, add_socket_timer, on_send_message_error, report,
}

-- Each map is the inverse of the other.
pub record IsPaired (r : Reactor) : Type 0 where
  pub to_timer : (id : ℕ) (t : ℤ) → r.socket_to_timer id ≡ some t → r.timer_to_socket t ≡ some id
  pub to_socket : (t : ℤ) (id : ℕ) → r.timer_to_socket t ≡ some id → r.socket_to_timer id ≡ some t

pub pair-IsPaired :
    (r : Reactor) (id : ℕ) (t : ℤ)
    → IsPaired r
    → r.socket_to_timer id ≡ none
    → r.timer_to_socket t ≡ none
    → IsPaired (pair id t r)
unfolding pair
pair-IsPaired r id t v no_timer no_socket = record {
  to_timer = λ j u e.
      grind
        (arith, v.to_timer j u, v.to_socket u j, v.to_timer id t, same_int_refl t, same_int→eq t u);
  to_socket = λ u j e.
      grind
        (arith, v.to_timer j u, v.to_socket u j, v.to_timer id t, same_int_refl t, same_int→eq t u);
}

pub unpair-IsPaired :
    (r : Reactor) (id : ℕ) (t : ℤ)
    → IsPaired r
    → r.socket_to_timer id ≡ some t
    → IsPaired (unpair id t r)
unfolding unpair
unpair-IsPaired r id t v e = record {
  to_timer = λ j u h.
      grind
        (arith, v.to_timer j u, v.to_socket u j, v.to_timer id t, same_int_refl t, same_int→eq t u);
  to_socket = λ u j h.
      grind
        (arith, v.to_timer j u, v.to_socket u j, v.to_timer id t, same_int_refl t, same_int→eq t u);
}

-- The timers are valid, and a socket waits only for a timer that was started.
pub record IsTimed (r : Reactor) : Type 0 where
  pub paired : IsPaired r
  pub heap : IsValid r.timer_heap
  pub started : (t : ℕ) → r.timer_heap.timer_id < t → r.timer_to_socket (pos t) ≡ none

-- The socket waits for a timer of its own, and the sockets, the connections and the other timers
-- are as they were.
abbrev pub Waits : Timestamp → ℤ → ℕ → Reactor → Reactor → Type 0
Waits now timeout_ms id r s =
    IsTimed s
    × (s.socket_to_timer id ≡ some (pos (r.timer_heap.timer_id + 1)))
    × ((j : ℕ) → j ≢ id → s.socket_to_timer j ≡ r.socket_to_timer j)
    × (s.timer_heap.timer_id ≡ r.timer_heap.timer_id + 1)
    × (s.sizes ≡ r.sizes)
    × (s.sockets ≡ r.sockets)
    × (s.connections ≡ r.connections)
    × ((k : ℕ)
        → view s.timer_heap k ≡ (
            if r.timer_heap.timer_id + 1 == k
            then some
                (add_millisecond now (at_least_zero timeout_ms), at_least_zero timeout_ms, pos 1)
            else view r.timer_heap k))

-- A timer waits, called once and without a delay, that is to report the error of the socket.
abbrev pub IsDue : ℕ → Reactor → Type 0
IsDue id r =
    (timer : ℕ) × (due : Timestamp) × (r.socket_to_timer id ≡ some (pos timer))
    × (view r.timer_heap timer ≡ some (due, 0, pos 1))

-- The timer that a socket waits for stays when another socket gets one.
pub Waits-IsDue :
    (now : Timestamp) (id j : ℕ) (r s : Reactor)
    → Waits now (pos 0) id r s
    → j ≢ id
    → IsDue j r
    → IsDue j s
Waits-IsDue now id j r s (_, _, others, _, _, _, _, views) other (k, due, held, waits) =
    elim (Bool-cases (r.timer_heap.timer_id + 1 == k)) [
      | inl new ↦ (k, add_millisecond now 0, others j other ∙ held, views k ∙ ground (arith, new))
      | inr old ↦ (k, due, others j other ∙ held, views k ∙ ground (arith, old, waits))
    ]

-- The socket waits for the new timer.
pub Waits-new : (now : Timestamp) (id : ℕ) (r s : Reactor) → Waits now (pos 0) id r s → IsDue id s
Waits-new now id r s (_, held, _, _, _, _, _, views) = (
  r.timer_heap.timer_id + 1,
  add_millisecond now 0,
  held,
  views (r.timer_heap.timer_id + 1) ∙ ground arith,
)

-- While the counter of timer ids has ids left, addSocketTimer for a socket without a timer starts
-- a timer for it alone, leaves the sockets and connections as they are, and keeps the timers valid and the maps between sockets and timers
-- inverse.
pub add_socket_timer_lem :
    (now : Timestamp) (id : ℕ) (timeout_ms : ℤ) (r : Reactor)
    → IsTimed r
    → IsNormal now
    → r.timer_heap.timer_id + 1 < 2 ^ 63
    → r.socket_to_timer id ≡ none
    → Ends (Waits now timeout_ms id r) (add_socket_timer now id timeout_ms r)
unfolding add_socket_timer start_timer pair
add_socket_timer_lem now id timeout_ms r v n room free =
    let next = r.timer_heap.timer_id + 1 in
    let ((t, heap), ret, (named, counted, valid, views)) =
      Ends-inv (add_timer_lem now timeout_ms (pos 1) r.timer_heap v.heap n room) in
    let p = pair-IsPaired r id (pos next) v.paired free (v.started next (omega arith)) in
    rw (ret, named)
      (ends (
        record {
          paired = record { to_timer = p.to_timer; to_socket = p.to_socket };
          heap = valid;
          started = λ u less. ground (arith, counted, v.started u);
        },
        ground arith,
        λ j m. ground arith,
        counted,
        refl,
        refl,
        refl,
        views,
      ))

-- What onSendMessageError leaves: the timer is of no socket any more, so that it reports no error
-- again.
abbrev pub Reported : ℤ → Reactor × Option (ℕ × ℕ) → Type 0
Reported t (s, told) =
    IsPaired s × (s.timer_to_socket t ≡ none) × ((on_send_message_error t s).1 ≡ none)

silent : (t : ℤ) (s : Reactor) → s.timer_to_socket t ≡ none → (on_send_message_error t s).1 ≡ none
unfolding on_send_message_error
silent t s e = rw (e, on_send_message_error) refl

-- onSendMessageError keeps the maps between sockets and timers inverse, and reports the error of a
-- timer at most once.
pub on_send_message_error_lem :
    (t : ℤ) (r : Reactor) → IsPaired r → Reported t (on_send_message_error t r)
unfolding on_send_message_error unpair
on_send_message_error_lem t r v = elim (Option-cases (r.timer_to_socket t)) [
  | inl e ↦
      let same : on_send_message_error t r ≡ (r, none) = rw (e, on_send_message_error) refl in
      subst (Reported t) (sym same) (v, e, silent t r e)
  | inr (id, e) ↦
      let s = unpair id t r in
      let same : on_send_message_error t r ≡ (s, report id r) =
        rw (e, on_send_message_error) refl in
      let gone : s.timer_to_socket t ≡ none = rw (same_int_refl t) refl in
      subst (Reported t) (sym same)
        (unpair-IsPaired r id t v (v.to_socket t id e), gone, silent t s gone)
]
