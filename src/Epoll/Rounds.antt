-- ===== src/Epoll/Rounds.antt =====
-- A round of doEvent of a program in which devices that are gone are marked as removed.
use zbluenet.Base.{
  ℕ, suc, length, ◌≡◌, ◌⊎◌, refl, ap, arith, inl, inr, Bool, true, false, not, ◌&&◌, List, [], ◌∷◌,
  All, Outcome, Ends, ends, Ends-bind, Ends-map, Ends-if,
}
use zbluenet.Epoll.{
  Epoller, Kind, read_kind, error_kind, Ready, events, check_io_device_exist, fire, handle_event,
  handle_events, after_events, do_event,
}

module _ {S : Type 0} (epoller : S → Epoller) (with_epoller : Epoller → S → S)
    (call : Kind → ℕ → S → Outcome S) (alive : ℕ → S → Bool) where
  -- A device that is alive, or that was deleted from the poller in this round.
  abbrev pub Known : ℕ → S → Type 0
  Known d s = (alive d s ≡ true) ⊎ ((epoller s).removed_io_devices d ≡ true)

  -- Devices go only by way of `del`.
  abbrev pub Keeps : S → S → Type 0
  Keeps s t = (d : ℕ) → Known d s → Known d t

  abbrev AllKnown : List Ready → S → Type 0
  AllKnown ready s = All (λ (e : Ready). Known e.device s) ready

  Keeps-AllKnown : (ready : List Ready) (s t : S) → Keeps s t → AllKnown ready s → AllKnown ready t
  Keeps-AllKnown [] s t k all = tt
  Keeps-AllKnown (e ∷ rest) s t k (one, all) = (k e.device one, Keeps-AllKnown rest s t k all)

  -- A branch of the loop, when the callback of a device that is alive returns with `Post`, which
  -- holds already if none is called.
  fire_lem :
      (Post : S → Type 0) (kind : Kind) (wanted going : Bool) (d : ℕ) (s : S)
      → Known d s
      → Post s
      → (alive d s ≡ true → Ends Post (call kind d s))
      → Ends (λ out. Post out.1) (fire epoller with_epoller call kind wanted d (going, s))
  unfolding fire check_io_device_exist
  fire_lem Post kind wanted going d s known idle called =
      Ends-if (going && wanted)
        (λ _.
          Ends-if (not ((epoller s).removed_io_devices d))
            (λ there.
              let live : alive d s ≡ true = elim known [
                | inl a ↦ a
                | inr r ↦ absurd (grind (arith, r, there))
              ] in
              Ends-bind (called live) λ t post. ends post)
            λ _. ends idle)
        λ _. ends idle

  -- `Good n` holds of a program that can still read `n` times.
  module _ (Good : ℕ → S → Type 0) (fewer : (n : ℕ) (s : S) → Good (suc n) s → Good n s)
      (reads : (n d : ℕ) (s : S)
        → Good (suc n) s
        → alive d s ≡ true
        → Ends (λ t. Good n t × Keeps s t) (call read_kind d s))
      (fails : (n d : ℕ) (s : S)
        → Good n s
        → alive d s ≡ true
        → Ends (λ t. Good n t × Keeps s t) (call error_kind d s)) where
    handle_event_lem :
        (n : ℕ) (e : Ready) (s : S)
        → Good (suc n) s
        → Known e.device s
        → e.output ≡ false
        → Ends (λ t. Good n t × Keeps s t) (handle_event epoller with_epoller call e s)
    unfolding handle_event fire
    handle_event_lem n e s good known no_output = rw no_output (
        Ends-bind {P = λ out. Good n out.1 × Keeps s out.1}
          (Ends-bind {P = λ out. Good n out.1 × Keeps s out.1}
            (fire_lem (λ t. Good n t × Keeps s t) read_kind e.input true e.device s known
              (fewer n s good, λ j k. k) (reads n e.device s good))
            λ (g, t) (better, k).
              Ends-map
                (fire_lem (λ u. Good n u × Keeps t u) error_kind e.error g e.device t
                  (k e.device known) (better, λ j l. l) (fails n e.device t better))
                λ out (best, l). (best, λ d x. l d (k d x)))
          λ (g, t) post. ends post)

    handle_events_lem :
        (ready : List Ready) (s : S)
        → Good (length ready) s
        → AllKnown ready s
        → All (λ (e : Ready). e.output ≡ false) ready
        → Ends (λ t. Good 0 t × Keeps s t) (handle_events epoller with_epoller call ready s)
    unfolding handle_events
    handle_events_lem [] s good all quiet = ends (good, λ d k. k)
    handle_events_lem (e ∷ rest) s good (one, all) (no_output, quiet) =
        Ends-bind (handle_event_lem (length rest) e s good one no_output) λ t (better, k).
          Ends-map (handle_events_lem rest t better (Keeps-AllKnown rest s t k all) quiet)
            λ u (best, l). (best, λ d x. l d (k d x))

    -- A round over events of devices that are alive at its start, none of which is EPOLLOUT,
    -- returns: no callback is called of a device that is gone. It ends with no device marked as
    -- removed.
    pub do_event_lem :
        ((e : Epoller) (s : S) → epoller (with_epoller e s) ≡ e)
        → ((e : Epoller) (s : S) → Good 0 s → Good 0 (with_epoller e s))
        → (ready : List Ready) (s : S) → Good (length ready) s
        → All (λ (e : Ready). (alive e.device s ≡ true) × (e.output ≡ false)) ready
        → Ends
            (λ out.
              (out.0 ≡ true)
              × ((d : ℕ) → (epoller out.1).removed_io_devices d ≡ false)
              × Good 0 out.1)
            (do_event epoller with_epoller call (events ready) s)
    unfolding do_event after_events
    do_event_lem law kept ready s good all =
        Ends-bind (handle_events_lem ready s good (known ready s all) (quiet ready s all))
          λ t (best, k).
            ends (refl, (λ d. ap (λ e. e.removed_io_devices d) (law _ t)), kept _ t best)
      where
        known :
            (ready : List Ready) (s : S)
            → All (λ (e : Ready). (alive e.device s ≡ true) × (e.output ≡ false)) ready
            → AllKnown ready s
        known [] s all = tt
        known (e ∷ rest) s ((one, _), more) = (inl one, known rest s more)

        quiet :
            (ready : List Ready) (s : S)
            → All (λ (e : Ready). (alive e.device s ≡ true) × (e.output ≡ false)) ready
            → All (λ (e : Ready). e.output ≡ false) ready
        quiet [] s all = tt
        quiet (e ∷ rest) s ((_, none_out), more) = (none_out, quiet rest s more)
