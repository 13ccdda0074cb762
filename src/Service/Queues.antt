-- ===== src/Service/Queues.antt =====
-- A command that is pushed goes to the end of one net thread's queue.
use zbluenet.Base.{
  ℕ, zero, suc, ◌+◌, ◌<◌, ◌≤◌, ◌≡◌, ◌≢◌, refl, ap, ◌∙◌, subst, inl, inr, Bool-cases, arith, true,
  List, [], ◌∷◌, ◌++◌, Option, some, length, get_or, Ends, ends, Ends-bind, Ends-map, ◌==◌,
}
use zbluenet.Protocol.{MessageApi, NetId, same_id, NetCommand, broadcast, no_id}
use zbluenet.Service.{Service, push_at, push, broadcast_from, broadcast_message}

pub same_id_refl : (id : NetId) → same_id id id ≡ true
unfolding same_id
same_id_refl id = ground arith

pub same_id→eq : (a b : NetId) → same_id a b ≡ true → a ≡ b
unfolding same_id
same_id→eq a b e = ground arith

module _ (api : MessageApi) where
  open api use {Message}

  abbrev Item : Type 0
  Item = Option (NetCommand Message)

  -- One queue has got the item, and the others are as they were.
  pub record Pushed (i : ℕ) (item : Item) (before after : List (List Item)) : Type 0 where
    pub threads : length after ≡ length before
    pub got : get_or after i [] ≡ get_or before i [] ++ item ∷ []
    pub others : (j : ℕ) → j ≢ i → get_or after j [] ≡ get_or before j []

  suc-Pushed :
      (i : ℕ) (item : Item) (q : List Item) (before after : List (List Item))
      → Pushed i item before after
      → Pushed (suc i) item (q ∷ before) (q ∷ after)
  suc-Pushed i item q before after p = record {
    threads = ap suc p.threads;
    got = p.got;
    others = others_of;
  }
    where
      others_of : (j : ℕ) → j ≢ suc i → get_or (q ∷ after) j [] ≡ get_or (q ∷ before) j []
      others_of zero n = refl
      others_of (suc j) n = p.others j (λ e. n (ap suc e))

  pub push_at_lem :
      (i : ℕ) (item : Item) (queues : List (List Item))
      → i < length queues
      → Ends (Pushed i item queues) (push_at api i item queues)
  unfolding push_at
  push_at_lem i item [] h = absurd (omega arith)
  push_at_lem zero item (q ∷ queues) h =
      ends (record { threads = refl; got = refl; others = others_of })
    where
      others_of :
          (j : ℕ) → j ≢ 0 → get_or ((q ++ item ∷ []) ∷ queues) j [] ≡ get_or (q ∷ queues) j []
      others_of zero n = absurd (n refl)
      others_of (suc j) n = refl
  push_at_lem (suc i) item (q ∷ queues) h =
      Ends-bind (push_at_lem i item queues (omega arith))
        λ after p. ends (suc-Pushed i item q queues after p)

  -- What a push leaves.
  pub record PushedTo (cmd : NetCommand Message) (s u : Service api) : Type 0 where
    pub queued : Pushed cmd.id.reactor_id (some cmd) s.queues u.queues
    pub same : u ≡ record s { queues = u.queues }

  pub push_lem :
      (cmd : NetCommand Message) (s : Service api)
      → cmd.id.reactor_id < length s.queues
      → Ends (PushedTo cmd s) (push api cmd s)
  unfolding push
  push_lem cmd s h =
      Ends-bind (push_at_lem cmd.id.reactor_id (some cmd) s.queues h)
        λ queues p. ends (record { queued = p; same = refl })

  -- A broadcast is queued for each net thread.
  module _ (clone : Message → Message) (message_id : ℕ) (m : Message) where
    abbrev pub broadcast_to : ℕ → NetCommand Message
    broadcast_to i = record {
      type = broadcast;
      id = record no_id { reactor_id = i };
      message_id = message_id;
      body = some (clone m);
    }

    pub record Queued (i n : ℕ) (s u : Service api) : Type 0 where
      pub threads : length u.queues ≡ length s.queues
      pub got :
          (j : ℕ)
          → i ≤ j
          → j < i + n
          → get_or u.queues j [] ≡ get_or s.queues j [] ++ some (broadcast_to j) ∷ []
      pub before : (j : ℕ) → j < i → get_or u.queues j [] ≡ get_or s.queues j []
      pub same : u ≡ record s { queues = u.queues }

    broadcast_from_lem :
        (n i : ℕ) (s : Service api)
        → i + n ≤ length s.queues
        → Ends (Queued i n s) (broadcast_from api clone n i message_id m s)
    unfolding broadcast_from
    broadcast_from_lem zero i s h = ends (record {
      threads = refl;
      got = λ j a b. absurd (omega arith);
      before = λ j a. refl;
      same = refl;
    })
    broadcast_from_lem (suc n) i s h = Ends-bind (push_lem (broadcast_to i) s (omega arith)) λ t p.
        Ends-map (broadcast_from_lem n (suc i) t (omega (arith, p.queued.threads))) λ u q. record {
          threads = q.threads ∙ p.queued.threads;
          got = λ j a b. elim (Bool-cases (i == j)) [
            | inl e ↦
                subst
                  (λ k. get_or u.queues k [] ≡ get_or s.queues k [] ++ some (broadcast_to k) ∷ [])
                  {x = i} (ground (arith, e)) (q.before i (omega arith) ∙ p.queued.got)
            | inr e ↦
                q.got j (ground (arith, e)) (omega arith)
                ∙ ap (λ l. l ++ some (broadcast_to j) ∷ []) (p.queued.others j (ground (arith, e)))
          ];
          before = λ j a. q.before j (omega arith) ∙ p.queued.others j (ground arith);
          same = q.same ∙ ap (λ (x : Service api). record x { queues = u.queues }) p.same;
        }

    -- broadcastMessage puts one command with a copy of the message at the end of the queue of
    -- every net thread, and changes nothing else.
    pub broadcast_message_lem :
        (s : Service api)
        → Ends
            (λ u.
              (length u.queues ≡ length s.queues)
              × ((j : ℕ)
                  → j < length s.queues
                  → get_or u.queues j [] ≡ get_or s.queues j [] ++ some (broadcast_to j) ∷ [])
              × (u ≡ record s { queues = u.queues }))
            (broadcast_message api clone message_id (some m) s)
    unfolding broadcast_message
    broadcast_message_lem s =
        Ends-map (broadcast_from_lem (length s.queues) 0 s (omega arith))
          λ u q. (q.threads, λ j h. q.got j (omega arith) (omega arith), q.same)
