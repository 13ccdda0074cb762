-- ===== src/Timers/Expire.antt =====
-- A round of checkTimeout: the timer that is due first leaves the heap or is put off.
use zbluenet.Base.{
  ℕ, ◌+◌, ◌-◌, ◌/◌, ◌<◌, ◌≡◌, ◌≢◌, refl, sym, ap, fun_ext, ◌∙◌, arith, Bool, true, false, ◌==◌,
  if◌then◌else◌, none, Option, some, Ends, ends, Ends-bind, Ends-if, Ends-map, inl, total,
  total-apart,
}
use zbluenet.Base.Int.{ℤ}
use zbluenet.Time.{Timestamp, add_millisecond, millisecond_less}
use zbluenet.Time.Laws.{nanos, millis, IsNormal, add_millisecond_lem, millisecond_less_lem}
use zbluenet.Timers.{
  Timer, Impl, size, slot, due, update, renew_timer, forget_timer, is_one, dec_call_times, expire,
}
use zbluenet.Timers.Order.{IsHeap, Kept}
use zbluenet.Timers.Valid.{
  IsHolding, IsValid, view, Kept-view, erase-IsHolding, insert-IsHolding, slot-held, held-positive,
}
use zbluenet.Timers.Erase.{Erased}
use zbluenet.Timers.Insert.{Inserted}
use zbluenet.Timers.Remove.{forget-IsValid, forget-view}

-- The milliseconds from when the timer is due to the end of the one that it is.
abbrev pub late : Timestamp → Impl → ℕ → ℕ
late now s id = if id == 0 then 0 else millis now + 1 - millis (s.objects id).value

-- The sum for all timers, which each round makes smaller.
abbrev pub lateness : Timestamp → Impl → ℕ
lateness now s = total (late now s) s.timer_min_heap

-- A timer that is called again has a timeout of a millisecond at least.
abbrev pub IsSteady : Impl → Type 0
IsSteady s =
    (id : ℕ)
    → s.timer_map id ≡ true
    → is_one (s.objects id).call_times ≡ false
    → 0 < (s.objects id).timeout_millisec

-- What becomes of a timer that is called.
abbrev pub next_view : Timer → Option (Timestamp × ℕ × ℤ)
next_view timer =
    if is_one timer.call_times
    then none
    else some (
      add_millisecond timer.value timer.timeout_millisec,
      timer.timeout_millisec,
      dec_call_times timer.call_times,
    )

pub record Expired (id : ℕ) (now : Timestamp) (s t : Impl) : Type 0 where
  pub valid : IsValid t
  pub order : IsHeap t
  pub steady : IsSteady t
  pub views : (j : ℕ) → view t j ≡ (if id == j then next_view (s.objects id) else view s j)
  pub less_late : lateness now t < lateness now s

-- Where the timers are due at the same times, the lateness of each is the same.
late-same :
    (now : Timestamp) (s t : Impl)
    → ((id : ℕ) → (t.objects id).value ≡ (s.objects id).value)
    → (id : ℕ) → late now t id ≡ late now s id
late-same now s t same id = rw (same id) refl

module _ (held : ℕ → Bool) (id : ℕ) (t : Impl) (h : IsHolding held t) (out : held id ≡ false) where
  renew-apart :
      (i : ℕ) → 0 < i → i < size t → (renew_timer id t).objects (slot t i) ≡ t.objects (slot t i)
  unfolding renew_timer
  renew-apart i p q = grind (arith, slot-held held t h i p q)

  renew-IsHolding : IsHolding held (renew_timer id t)
  unfolding renew_timer
  renew-IsHolding = record {
    linked = record {
      root = h.linked.root;
      null = h.linked.null;
      linked = λ i p q. grind (arith, renew-apart i p q, h.linked.linked i p q);
      normal = λ j.
          let (normal, _) =
            add_millisecond_lem (t.objects id).value (t.objects id).timeout_millisec
              (h.linked.normal id) in
          ground (arith, h.linked.normal j, normal);
    };
    counts = h.counts;
    null_once = h.null_once;
    no_null = h.no_null;
  }

  renew-IsHeap : IsHeap t → IsHeap (renew_timer id t)
  unfolding renew_timer
  renew-IsHeap o c p q =
      let below = renew-apart c (omega arith) q in
      let above = renew-apart (c / 2) (omega arith) (omega arith) in
      rw (ap (λ (x : Timer). nanos x.value) below, ap (λ (x : Timer). nanos x.value) above)
        (o c p q)

  renew-late :
      (now : Timestamp)
      → id ≢ 0
      → (lateness now (renew_timer id t) ≡ lateness now t)
        × (late now (renew_timer id t) id ≡ late now t id - (t.objects id).timeout_millisec)
  unfolding renew_timer
  renew-late now n =
      let (_, later) =
        add_millisecond_lem (t.objects id).value (t.objects id).timeout_millisec
          (h.linked.normal id) in
      (
        total-apart (late now (renew_timer id t)) (late now t) id t.timer_min_heap
            (λ x m. ground arith) (ground (arith, h.counts id n)),
        ground (arith, later),
      )

lateness-same :
    (now : Timestamp) (s t : Impl) → Kept s t → lateness now t ≡ total (late now s) t.timer_min_heap
lateness-same now s t k = ap (λ f. total f t.timer_min_heap) (fun_ext (late-same now s t k.value))

module _ (s t : Impl) (id : ℕ) (now : Timestamp) (v : IsValid s) (e : s.timer_map id ≡ true)
    (n : IsNormal now) (h : IsHolding (update s.timer_map id false) t) (r : Erased id s t)
    (ripe : millisecond_less now (s.objects id).value ≡ false) (steady : IsSteady s)
    (o : IsHeap t) where
  nonzero : id ≢ 0
  nonzero = held-positive s.timer_map s v.holding id e

  erased_late : lateness now t + late now s id ≡ lateness now s
  erased_late = omega (arith, lateness-same now s t r.kept, r.entries (late now s))

  ripe_late : 0 < late now s id
  ripe_late =
      let reached = millisecond_less_lem now (s.objects id).value n (v.holding.linked.normal id) in
      ground (arith, reached, ripe, nonzero)

  once-same : is_one (t.objects id).call_times ≡ is_one (s.objects id).call_times
  once-same = ap is_one (r.kept.calls id)

  forget-Expired : is_one (t.objects id).call_times ≡ true → Expired id now s (forget_timer id t)
  unfolding forget_timer
  forget-Expired once = record {
    valid = forget-IsValid s t id v r.kept h;
    order = o;
    steady = λ j a b.
        rw (r.kept.timeout j)
          (steady j (ground (arith, rw r.kept.keys at a)) (rw (r.kept.calls j) at b));
    views = λ j. forget-view s t id j r.kept ∙ ground (arith, once-same);
    less_late = omega (arith, erased_late, ripe_late);
  }

  renew-view :
      (j : ℕ)
      → is_one (t.objects id).call_times ≡ false
      → view (renew_timer id t) j ≡ (if id == j then next_view (s.objects id) else view s j)
  unfolding renew_timer
  renew-view j again =
      let again' : is_one (s.objects id).call_times ≡ false = sym once-same ∙ again in
      rw r.kept.keys (grind (arith, again', r.kept.value, r.kept.timeout, r.kept.calls))

  renew-Expired :
      (u : Impl)
      → is_one (t.objects id).call_times ≡ false
      → IsHolding (update (update s.timer_map id false) id true) u
      → Inserted id (renew_timer id t) u
      → Expired id now s u
  unfolding renew_timer
  renew-Expired u again h' q = record {
    valid = record {
      holding = record {
        linked = h'.linked;
        counts = λ j m. rw (q.kept.keys, r.kept.keys) (ground (arith, h'.counts j m));
        null_once = h'.null_once;
        no_null = rw (q.kept.keys, r.kept.keys) v.holding.no_null;
      };
      fresh = λ j a.
          rw (q.kept.keys, r.kept.keys) (v.fresh j (rw (q.kept.counter, r.kept.counter) at a));
    };
    order = q.order (renew-IsHeap _ id t h (ground arith) o);
    steady = λ j a b.
        let again' : is_one (s.objects id).call_times ≡ false = sym once-same ∙ again in
        let live : s.timer_map j ≡ true = rw (q.kept.keys, r.kept.keys) at a in
        rw (q.kept.timeout j) (
          grind
            (arith, rw (q.kept.calls j) at b, r.kept.timeout, r.kept.calls, steady j, steady id));
    views = λ j. Kept-view q.kept j ∙ renew-view j again;
    less_late =
        let (others, own) =
          renew-late (update s.timer_map id false) id t h (ground arith) now nonzero in
        let moved = lateness-same now (renew_timer id t) u q.kept in
        let same = late-same now s t r.kept.value id in
        let again' : is_one (s.objects id).call_times ≡ false = sym once-same ∙ again in
        omega (
          arith,
          moved,
          q.entries (late now (renew_timer id t)),
          others,
          own,
          same,
          erased_late,
          ripe_late,
          r.kept.timeout id,
          steady id e again',
        );
  }

-- Let every timer that is called again have a timeout of a millisecond at least. Then a round of
-- checkTimeout for the timer on top, if it is due, takes it out after its last call and else puts
-- it off by its timeout, leaves the other timers as they are, keeps the heap valid and in order,
-- and makes the lateness smaller.
pub expire_lem :
    (s : Impl) (now : Timestamp)
    → IsValid s
    → IsHeap s
    → IsSteady s
    → IsNormal now
    → 1 < size s
    → millisecond_less now (due s 1) ≡ false
    → Ends (Expired (slot s 1) now s) (expire (slot s 1) s)
unfolding expire
expire_lem s now v o steady n h ripe =
    let e = slot-held s.timer_map s v.holding 1 (omega arith) h in
    Ends-bind (erase-IsHolding s.timer_map s v.holding (slot s 1) e) λ t (held, r).
      let o' = r.order 1 (v.holding.linked.linked 1 (omega arith) h) o (inl refl) in
      Ends-if (is_one (t.objects (slot s 1)).call_times)
        (λ once. ends (forget-Expired s t (slot s 1) now v e n held r ripe steady o' once))
        λ again.
          let out : update s.timer_map (slot s 1) false (slot s 1) ≡ false = ground arith in
          let positive = held-positive s.timer_map s v.holding (slot s 1) e in
          Ends-map
            (insert-IsHolding _ (renew_timer (slot s 1) t) (renew-IsHolding _ (slot s 1) t held out)
              (slot s 1) positive out)
            λ u (held', q).
              renew-Expired s t (slot s 1) now v e n held r ripe steady o' u again held' q
