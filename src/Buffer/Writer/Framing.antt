-- ===== src/Buffer/Writer/Framing.antt =====
-- A message that is started, filled and ended.
use psql_wire.Base.{
  Bytes, [], ap, append-nil, append_assoc, arith, length, none, refl, sym, ℕ, ◌++◌, ◌+◌, ◌∙◌, ◌∷◌,
  ◌≡◌,
}
use psql_wire.Buffer.Stream.{Sink, write}
use psql_wire.Buffer.Words.{put_uint32}
use psql_wire.Buffer.Writer.{Writer, add, end, put_length, reset_frame, start}
use psql_wire.Buffer.Writer.Emits.{Emits, transmit, transmit_one}
use psql_wire.Exec.{Exec, Result, ok, ◌>>◌}

-- A message of the protocol: its type, its length without the type byte, its body.
abbrev pub server_message : ℕ → Bytes → Bytes
server_message t body = t ∷ (put_uint32 (length body + 4) ++ body)

-- `k` adds `body` to the frame and ends it.
pub record Ends (k : Exec Writer (Unit {0})) (body : Bytes) : Type 0 where
  pub at : (w : Writer) → w.failed ≡ none → k w ≡ end (record w { frame = w.frame ++ body })

-- `m` adds `bytes` to the frame.
pub record Adds {A : Type 0} (m : Exec Writer A) (bytes : Bytes) : Type 0 where
  pub at :
      (w : Writer)
      → w.failed ≡ none
      → (a : A) × (m w ≡ (ok a, record w { frame = w.frame ++ bytes }))

pub Ends-end : Ends end []
Ends-end = record { at = λ w h. rw append-nil }

pub Adds-add : (bytes : Bytes) → Adds (add bytes) bytes
unfolding add
Adds-add bytes = record { at = λ w h. (length bytes, rw h) }

pub Ends-then :
    {A : Type 0} {m : Exec Writer A} {k : Exec Writer (Unit {0})} (bytes body : Bytes)
    → Adds m bytes
    → Ends k body
    → Ends (m >> k) (bytes ++ body)
Ends-then bytes body am ek = record {
  at = λ w h.
      let (a, e) = am.at w h in
      rw e (ek.at (record w { frame = w.frame ++ bytes }) h ∙ rw append_assoc);
}

pub Adds-then :
    {A B : Type 0} {m : Exec Writer A} {k : Exec Writer B} (xs ys : Bytes)
    → Adds m xs
    → Adds k ys
    → Adds (m >> k) (xs ++ ys)
Adds-then xs ys am ak = record {
  at = λ w h.
      let (a, e) = am.at w h in
      let (b, f) = ak.at (record w { frame = w.frame ++ xs }) h in (b, rw e (f ∙ rw append_assoc));
}

put_length-message :
    (t b c d e : ℕ) (body : Bytes)
    → put_length ((t ∷ b ∷ c ∷ d ∷ e ∷ []) ++ body) ≡ server_message t body
unfolding put_length
put_length-message t b c d e body = ap (λ (n : ℕ). t ∷ (put_uint32 n ++ body)) (omega arith)

-- Whatever state an earlier message left the writer in, the message is sent in one write.
pub Emits-message :
    {k : Exec Writer (Unit {0})} (t : ℕ) (body : Bytes)
    → Ends k body
    → Emits (start t >> k) (server_message t body ∷ [])
unfolding start end reset_frame
Emits-message {k} t body ek = record {
  result = λ w.
      ap (λ (p : Result (Unit {0}) × Writer). p.0) (ek.at _ refl)
      ∙ ap (λ (p : Result (Unit {0}) × Sink). p.0) (sent w);
  leaves = λ w.
      ap (λ (p : Result (Unit {0}) × Writer). p.1.sink) (ek.at _ refl)
      ∙ ap (λ (p : Result (Unit {0}) × Sink). p.1) (sent w);
}
  where
    sent :
        (w : Writer)
        → write
            (put_length ((t ∷ w.putbuf 1 ∷ w.putbuf 2 ∷ w.putbuf 3 ∷ w.putbuf 4 ∷ []) ++ body))
            w.sink
          ≡ transmit (server_message t body ∷ []) w.sink
    sent w =
        ap (λ (b : Bytes). write b w.sink)
          (put_length-message t (w.putbuf 1) (w.putbuf 2) (w.putbuf 3) (w.putbuf 4) body)
        ∙ sym (transmit_one (server_message t body) w.sink)
