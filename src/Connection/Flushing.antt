-- ===== src/Connection/Flushing.antt =====
-- onSocketWrite: the bytes that wait go out in order.
use zbluenet.Base.{
  ℕ, ◌-◌, ◌≡◌, ◌⊎◌, inl, inr, refl, ◌∙◌, arith, true, Ends, ends, Ends-if, List, [], ◌++◌,
  append_assoc, take, drop, drop-length, Bool-cases, take-append-drop, ◌==◌,
}
use zbluenet.Buffer.{readable_bytes, read}
use zbluenet.Buffer.Invariant.{contents, load-done}
use zbluenet.Buffer.Fifo.{read_lem}
use zbluenet.Connection.{
  Connection, SendResult, took, send_failed, eagain, Flushed, after_flush, on_socket_write,
}
use zbluenet.Connection.Sending.{IsSound, outgoing, empty-contents}

-- An empty buffer needs no callback.
after_flush_lem :
    (d : Connection)
    → IsSound d
    → IsSound (after_flush d).connection × (outgoing (after_flush d).connection ≡ outgoing d)
unfolding after_flush
after_flush_lem d v = elim (Bool-cases (readable_bytes d.write_buffer == 0)) [
  | inl e ↦
      rw e
        (record { buffer = v.buffer; armed = inl (empty-contents d.write_buffer v.buffer e) }, refl)
  | inr e ↦ rw e (v, refl)
]

drop-empty : (k : ℕ) (xs : List ℕ) → xs ≡ [] → drop k xs ≡ []
drop-empty k xs e = rw e (drop-length k [] (omega arith))

-- What onSocketWrite leaves: the same bytes go out, and the callback is set if any wait.
abbrev pub Flushes : Connection → Flushed → Type 0
Flushes c f = IsSound f.connection × (outgoing f.connection ≡ outgoing c)

-- onSocketWrite on a sound connection, whatever the socket takes or answers, moves bytes to the
-- wire in order without losing or repeating one, and keeps a write callback set while bytes wait.
pub on_socket_write_lem :
    (answer : SendResult) (c : Connection) → IsSound c → Ends (Flushes c) (on_socket_write answer c)
unfolding on_socket_write
on_socket_write_lem (send_failed errno) c v =
    Ends-if (errno == eagain) (λ _. ends (v, refl))
      λ _. ends (record { buffer = v.buffer; armed = v.armed }, refl)
on_socket_write_lem (took k) c v =
    let b = c.write_buffer in
    let readable : readable_bytes b ≡ b.write_index - b.read_index =
      omega (arith, v.buffer.ordered, v.buffer.inside, v.buffer.small) in
    let (valid, left, _, _) = read_lem b k v.buffer in
    let rest : Connection = record c {
      wire = c.wire ++ take k (contents b);
      write_buffer = read b k;
    } in
    let armed : (contents (read b k) ≡ []) ⊎ (c.write_callback ≡ true) = elim v.armed [
      | inl none_left ↦ inl (left ∙ drop-empty k (contents b) none_left)
      | inr set ↦ inr set
    ] in
    let (sound, out) = after_flush_lem rest (record { buffer = valid; armed = armed }) in
    let same : outgoing rest ≡ outgoing c =
      rw
        (
          left,
          append_assoc c.wire (take k (contents b)) (drop k (contents b)),
          take-append-drop k (contents b),
        )
        refl in
    rw
      (
        readable,
        load-done b.buffer b.read_index (b.write_index - b.read_index)
            (omega (arith, v.buffer.ordered, v.buffer.inside)),
      )
      (ends (sound, out ∙ same))
