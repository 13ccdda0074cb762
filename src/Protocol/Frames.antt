-- ===== src/Protocol/Frames.antt =====
-- The frame format, read off a list of bytes, and recvMessage against it.
use zbluenet.Base.{
  ℕ, ◌+◌, ◌-◌, ◌^◌, ◌≤◌, ◌<◌, ◌≡◌, refl, sym, ap, ◌∙◌, false, List, [], ◌++◌, Option, none, some,
  arith, length, take, drop, ltb, if◌then◌else◌, take-append, drop-append, take-append_le,
  drop-append_le, append-nil, length-append, length-drop, Bool-cases, Option-cases, inl, inr, done,
  Ends, ends, drop-take, take-take, drop-drop, ltb-false→le, le→ltb-false, lt→ltb, ltb→lt,
}
use zbluenet.Buffer.{Buffer, load, readable_bytes}
use zbluenet.Buffer.Invariant.{IsValid, contents, length-contents, load-done}
use zbluenet.Buffer.Fifo.{read_lem}
use zbluenet.Buffer.Integers.{value16, bytes16, peek_int16}
use zbluenet.Buffer.Integers.Values.{value16-bytes16}
use zbluenet.Buffer.Integers.Laws.{peek_with_lem}
use zbluenet.Protocol.{
  MessageApi, Received, err, waiting_more_data, message_ready, recv_message, recv_payload,
  recv_body,
}

-- What stands at the front of the bytes: nothing acceptable, less than a frame, or a frame.
pub data Parsed (M : Type 0) : Type 0 where
  failed more : Parsed M
  frame : ℕ → M → List ℕ → Parsed M

-- A frame is the message id and the length of the payload, 16 bits each and big endian, and the
-- payload.
abbrev pub frame_bytes : ℕ → List ℕ → List ℕ
frame_bytes message_id payload =
    bytes16 false message_id ++ (bytes16 false (length payload) ++ payload)

module _ (api : MessageApi) (max_packet_length : ℕ) where
  open api use {Message, create, decode}

  -- A frame of `l` bytes of payload, all of them there.
  abbrev parse_payload : List ℕ → ℕ → Parsed Message
  parse_payload q l =
      let message_id = value16 false (take 2 q) in
      elim (create message_id) [
        | none ↦ failed
        | some blank ↦ elim (decode blank (take l (drop 4 q))) [
          | none ↦ failed
          | some m ↦ frame message_id m (drop (l + 4) q)
        ]
      ]

  unfoldable pub parse : List ℕ → Parsed Message
  parse q =
      let l = value16 false (take 2 (drop 2 q)) in
      if ltb (length q) 4
      then more
      else if ltb max_packet_length (l + 4)
      then failed
      else if ltb (length q) (l + 4)
      then more
      else parse_payload q l

  -- The result and the buffer that fit what was parsed: only a whole frame is consumed.
  abbrev pub Agrees : Buffer → Parsed Message → Received Message × Buffer → Type 0
  Agrees b failed out = out ≡ (err, b)
  Agrees b more out = out ≡ (waiting_more_data, b)
  Agrees b (frame message_id m rest) out =
      (out.0 ≡ message_ready message_id m)
      × IsValid out.1
      × (contents out.1 ≡ rest)
      × (out.1.buffer ≡ b.buffer)
      × (out.1.expand_size ≡ b.expand_size)

  module _ (b : Buffer) (v : IsValid b) where
    -- The bytes at `readBegin() + 4`.
    payload_at :
        (l : ℕ)
        → l + 4 ≤ length (contents b)
        → load b.buffer (b.read_index + 4) l ≡ done (take l (drop 4 (contents b)))
    payload_at l whole =
        let n = b.write_index - b.read_index in
        load-done b.buffer (b.read_index + 4) l (omega (arith, length-contents b v))
        ∙ ap done (
            sym (
              ap (take l) (drop-take 4 n (drop b.read_index b.buffer))
              ∙ take-take l (n - 4) (drop 4 (drop b.read_index b.buffer))
                  (omega (arith, length-contents b v))
              ∙ ap (take l) (drop-drop 4 b.read_index b.buffer)))

    recv_payload_lem :
        (l : ℕ)
        → l + 4 ≤ length (contents b)
        → Ends
            (Agrees b (parse_payload (contents b) l))
            (recv_payload api (value16 false (take 2 (contents b))) l b)
    unfolding recv_payload
    recv_payload_lem l whole =
        let q = contents b in
        elim (Option-cases (create (value16 false (take 2 q)))) [
          | inl none_made ↦ rw (none_made, recv_payload, parse_payload) (ends refl)
          | inr (blank, made) ↦
              rw (made, recv_payload, parse_payload, payload_at l whole)
                (elim (Option-cases (decode blank (take l (drop 4 q)))) [
                  | inl bad ↦ rw bad (ends refl)
                  | inr (m, good) ↦ rw good (
                      let (valid, left, stored, kept) = read_lem b (l + 4) v in
                      ends (refl, valid, left, stored, kept))
                ])
        ]

    recv_body_lem :
        4 ≤ length (contents b)
        → Ends (Agrees b (parse (contents b))) (
            recv_body api max_packet_length
              (value16 false (take 2 (contents b)))
              (value16 false (take 2 (drop 2 (contents b))))
              b)
    unfolding recv_body parse
    recv_body_lem headed =
        let q = contents b in
        let l = value16 false (take 2 (drop 2 q)) in
        let readable : readable_bytes b ≡ length q = omega (arith, length-contents b v) in
        rw (readable, le→ltb-false (length q) 4 headed)
          (elim (Bool-cases (ltb max_packet_length (l + 4))) [
            | inl long ↦ rw long (ends refl)
            | inr fits ↦ rw fits (elim (Bool-cases (ltb (length q) (l + 4))) [
              | inl short ↦ rw short (ends refl)
              | inr whole ↦ rw whole (recv_payload_lem l (ltb-false→le (length q) (l + 4) whole))
            ])
          ])

    -- recvMessage on a valid buffer returns what the frame format says of the bytes that it holds,
    -- takes exactly one frame on success, and otherwise leaves the buffer as it is.
    pub recv_message_refines :
        Ends (Agrees b (parse (contents b))) (recv_message api max_packet_length b)
    unfolding recv_message peek_int16
    recv_message_refines =
        let q = contents b in
        rw (peek_with_lem 2 (value16 false) b v 0 (omega arith))
          (elim (Bool-cases (ltb (length q) (0 + 2))) [
            | inl short ↦ rw short (
                unfold parse in
                rw (lt→ltb (length q) 4 (omega (arith, ltb→lt (length q) (0 + 2) short)))
                  (ends refl))
            | inr two ↦
                rw (two, peek_with_lem 2 (value16 false) b v 2 (omega arith))
                  (elim (Bool-cases (ltb (length q) (2 + 2))) [
                    | inl short ↦ rw short (unfold parse in rw short (ends refl))
                    | inr four ↦ rw four (recv_body_lem (ltb-false→le (length q) 4 four))
                  ])
          ])

  -- What the application makes of a frame.
  abbrev pub opened : ℕ → List ℕ → Option Message
  opened message_id payload = elim (create message_id) [
    | none ↦ none
    | some blank ↦ decode blank payload
  ]

  -- A message as it stands in a stream.
  pub record Sent : Type 0 where
    pub message_id : ℕ
    pub payload : List ℕ
    pub body : Message

  abbrev pub sent_bytes : Sent → List ℕ
  sent_bytes s = frame_bytes s.message_id s.payload

  -- It fits the two 16-bit fields and the limit, and the application can open it.
  pub record IsSound (s : Sent) : Type 0 where
    pub id_fits : s.message_id < 2 ^ 16
    pub length_fits : length s.payload < 2 ^ 16
    pub within : length s.payload + 4 ≤ max_packet_length
    pub opens : opened s.message_id s.payload ≡ some s.body

  pub length-sent_bytes : (s : Sent) → length (sent_bytes s) ≡ length s.payload + 4
  unfolding bytes16
  length-sent_bytes s = omega arith

  length_field :
      (s : Sent) (rest : List ℕ)
      → IsSound s
      → value16 false (take 2 (drop 2 (sent_bytes s ++ rest))) ≡ length s.payload
  unfolding bytes16
  length_field s rest h = unfold bytes16 in value16-bytes16 false (length s.payload) h.length_fits

  id_field :
      (s : Sent) (rest : List ℕ)
      → IsSound s
      → value16 false (take 2 (sent_bytes s ++ rest)) ≡ s.message_id
  unfolding bytes16
  id_field s rest h = value16-bytes16 false s.message_id h.id_fits

  payload_field :
      (s : Sent) (rest : List ℕ)
      → (take (length s.payload) (drop 4 (sent_bytes s ++ rest)) ≡ s.payload)
        × (drop 4 (sent_bytes s ++ rest) ≡ s.payload ++ rest)
  unfolding bytes16
  payload_field s rest = (take-append (length s.payload) s.payload rest refl, refl)

  pub parse-sent_bytes :
      (s : Sent) (rest : List ℕ)
      → IsSound s
      → parse (sent_bytes s ++ rest) ≡ frame s.message_id s.body rest
  unfolding parse
  parse-sent_bytes s rest h =
      let q = sent_bytes s ++ rest in
      let n = length s.payload in
      let len : length q ≡ n + 4 + length rest =
        omega (arith, length-append (sent_bytes s) rest, length-sent_bytes s) in
      let (payload, after) = payload_field s rest in
      let consumed : drop (n + 4) q ≡ rest =
        ap (λ k. drop k q) (omega arith)
        ∙ sym (drop-drop n 4 q)
        ∙ ap (drop n) after
        ∙ drop-append n s.payload rest refl in
      rw
        (
          le→ltb-false (length q) 4 (omega arith),
          length_field s rest h,
          le→ltb-false max_packet_length (n + 4) h.within,
          le→ltb-false (length q) (n + 4) (omega arith),
        )
        (elim (Option-cases (create s.message_id)) [
          | inl unknown ↦ cc (rw (unknown, opened) at h.opens)
          | inr (blank, made) ↦
              let decoded : decode blank s.payload ≡ some s.body = rw (made, opened) at h.opens in
              rw (parse_payload, id_field s rest h, made, payload, decoded, consumed)
                (ap (λ k. frame k s.body rest) (id_field s rest h))
        ])

  -- A part of a frame from its front is less than a frame.
  pub parse-part :
      (s : Sent) (q r : List ℕ)
      → IsSound s
      → q ++ r ≡ sent_bytes s
      → length q < length (sent_bytes s)
      → parse q ≡ more
  unfolding parse
  parse-part s q r h e less = elim (Bool-cases (ltb (length q) 4)) [
    | inl short ↦ rw short
    | inr headed ↦
        let four : 4 ≤ length q = ltb-false→le (length q) 4 headed in
        let front : take 2 (drop 2 q) ≡ take 2 (drop 2 (sent_bytes s ++ [])) =
          sym (take-append_le 2 (drop 2 q) r (omega (arith, length-drop 2 q)))
          ∙ ap (take 2) (sym (drop-append_le 2 q r (omega arith)))
          ∙ ap (λ t. take 2 (drop 2 t)) (e ∙ sym (append-nil (sent_bytes s))) in
        rw (
          headed,
          front,
          length_field s [] h,
          le→ltb-false max_packet_length (length s.payload + 4) h.within,
          lt→ltb (length q) (length s.payload + 4) (omega (arith, length-sent_bytes s)),
        )
  ]

  -- What is consumed by a frame.
  pub parse-shorter :
      (q : List ℕ) (message_id : ℕ) (m : Message) (rest : List ℕ)
      → parse q ≡ frame message_id m rest
      → length rest < length q
  unfolding parse
  parse-shorter q message_id m rest e =
      let l = value16 false (take 2 (drop 2 q)) in ground (arith, e, length-drop (l + 4) q)
