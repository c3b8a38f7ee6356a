-- ===== src/Buffer/Writer/Emits.antt =====
-- What a sequence of writes does to a connection that may break, and writer code that amounts to
-- such a sequence.
use psql_wire.Base.{
  ==_iff, Bool-cases, Bytes, List, [], ap, append-nil, append_assoc, arith, inl, inr, length, refl,
  suc, sym, take, ℕ, ◌++◌, ◌-◌, ◌<◌, ◌==◌, ◌∙◌, ◌∷◌, ◌≡◌, ◌≤◌,
}
use psql_wire.Buffer.Stream.{Sink, write}
use psql_wire.Buffer.Writer.{Writer}
use psql_wire.Exec.{Exec, Result, after, err, ok, panic, pure, stuck, ◌>>◌}

-- The messages in order, up to the first write that fails.
pub transmit : List Bytes → Exec Sink (Unit {0})
transmit [] = pure tt
transmit (m ∷ ms) = write m >> transmit ms

one_write : (p : Result (Unit {0}) × Sink) → after p (λ _. pure tt) ≡ p
one_write (ok tt, s) = refl
one_write (err e, s) = refl
one_write (panic, s) = refl
one_write (stuck, s) = refl

pub transmit_one : (m : Bytes) (s : Sink) → transmit (m ∷ []) s ≡ write m s
unfolding transmit
transmit_one m s = one_write (write m s)

-- On a connection that takes all of them, exactly these messages are sent.
pub transmit_all :
    (ms : List Bytes) (s : Sink)
    → length ms ≤ s.accepts
    → transmit ms s ≡ (ok tt, record s { sent = s.sent ++ ms; accepts = s.accepts - length ms })
unfolding transmit write
transmit_all [] s h = ground (arith, append-nil s.sent)
transmit_all (m ∷ ms) s h = ground (
  arith,
  transmit_all ms (record s { sent = s.sent ++ m ∷ []; accepts = s.accepts - 1 }),
  append_assoc s.sent (m ∷ []) ms,
)

-- On a connection that breaks before that, as many as it takes, and the error of the connection.
pub transmit_broken :
    (ms : List Bytes) (s : Sink)
    → s.accepts < length ms
    → transmit ms s ≡ (err s.broken, record s { sent = s.sent ++ take s.accepts ms; accepts = 0 })
unfolding transmit write
transmit_broken [] s h = absurd (omega arith)
transmit_broken (m ∷ ms) s h = elim (Bool-cases (s.accepts == 0)) [
  | inl none_left ↦
      let e : s.accepts ≡ 0 = (==_iff _ _).0 none_left in ground (arith, append-nil s.sent)
  | inr more ↦
      let e : s.accepts ≡ suc (s.accepts - 1) = ground arith in
      let t : Sink = record s { sent = s.sent ++ m ∷ []; accepts = s.accepts - 1 } in
      rw more (
        transmit_broken ms t (omega arith)
        ∙ ap (λ (l : List Bytes). (err s.broken, record s { sent = l; accepts = 0 }))
            (append_assoc s.sent (m ∷ []) (take (s.accepts - 1) ms)
              ∙ ap (λ (n : ℕ). s.sent ++ take n (m ∷ ms)) (sym e)))
]

-- The code sends these messages, one write to a message, whatever the connection does.
pub record Emits (m : Exec Writer (Unit {0})) (ms : List Bytes) : Type 0 where
  pub result : (w : Writer) → (m w).0 ≡ (transmit ms w.sink).0
  pub leaves : (w : Writer) → (m w).1.sink ≡ (transmit ms w.sink).1

pub Emits-pure : Emits (pure tt) []
unfolding transmit
Emits-pure = record { result = λ w. refl; leaves = λ w. refl }

-- After one write, the rest of the first part and then the second.
after_write :
    (p : Result (Unit {0}) × Sink) (xs ys : List Bytes)
    → ((t : Sink) → transmit (xs ++ ys) t ≡ (transmit xs >> transmit ys) t)
    → after p (λ _. transmit (xs ++ ys)) ≡ after (after p (λ _. transmit xs)) (λ _. transmit ys)
after_write (ok tt, s) xs ys ih = ih s
after_write (err e, s) xs ys ih = refl
after_write (panic, s) xs ys ih = refl
after_write (stuck, s) xs ys ih = refl

transmit-append :
    (xs ys : List Bytes) (s : Sink) → transmit (xs ++ ys) s ≡ (transmit xs >> transmit ys) s
unfolding transmit
transmit-append [] ys s = refl
transmit-append (m ∷ xs) ys s = after_write (write m s) xs ys (transmit-append xs ys)

module _ {k : Exec Writer (Unit {0})} (ys : List Bytes) (ek : Emits k ys) where
  then_result :
      (p : Result (Unit {0}) × Writer) (q : Result (Unit {0}) × Sink)
      → p.0 ≡ q.0
      → p.1.sink ≡ q.1
      → (after p (λ _. k)).0 ≡ (after q (λ _. transmit ys)).0
  then_result (ok a, w) (ok b, s) e f = ek.result w ∙ ap (λ (s : Sink). (transmit ys s).0) f
  then_result (err a, w) (err b, s) e f = cc
  then_result (panic, w) (panic, s) e f = refl
  then_result (stuck, w) (stuck, s) e f = refl
  then_result (_, w) (_, s) e f = cc

  then_leaves :
      (p : Result (Unit {0}) × Writer) (q : Result (Unit {0}) × Sink)
      → p.0 ≡ q.0
      → p.1.sink ≡ q.1
      → (after p (λ _. k)).1.sink ≡ (after q (λ _. transmit ys)).1
  then_leaves (ok a, w) (ok b, s) e f = ek.leaves w ∙ ap (λ (s : Sink). (transmit ys s).1) f
  then_leaves (err a, w) (err b, s) e f = f
  then_leaves (panic, w) (panic, s) e f = f
  then_leaves (stuck, w) (stuck, s) e f = f
  then_leaves (_, w) (_, s) e f = cc

pub Emits-then :
    {m k : Exec Writer (Unit {0})} (xs ys : List Bytes)
    → Emits m xs
    → Emits k ys
    → Emits (m >> k) (xs ++ ys)
Emits-then {m} xs ys em ek = record {
  result = λ w.
      then_result ys ek (m w) (transmit xs w.sink) (em.result w) (em.leaves w)
      ∙ ap (λ (p : Result (Unit {0}) × Sink). p.0) (sym (transmit-append xs ys w.sink));
  leaves = λ w.
      then_leaves ys ek (m w) (transmit xs w.sink) (em.result w) (em.leaves w)
      ∙ ap (λ (p : Result (Unit {0}) × Sink). p.1) (sym (transmit-append xs ys w.sink));
}

-- On a connection that takes all of them, the code succeeds and exactly these messages are sent.
pub sends :
    {m : Exec Writer (Unit {0})} {ms : List Bytes}
    → Emits m ms
    → (w : Writer) → length ms ≤ w.sink.accepts
    → ((m w).0 ≡ ok tt)
      × ((m w).1.sink
          ≡ record (w.sink) { sent = w.sink.sent ++ ms; accepts = w.sink.accepts - length ms })
sends {ms = ms} em w h = (
  em.result w ∙ ap (λ (p : Result (Unit {0}) × Sink). p.0) (transmit_all ms w.sink h),
  em.leaves w ∙ ap (λ (p : Result (Unit {0}) × Sink). p.1) (transmit_all ms w.sink h),
)

-- One message and more behind it.
pub sent_both :
    (t : Sink) (m : Bytes) (ms : List Bytes) (n : ℕ)
    → record t { sent = (t.sent ++ m ∷ []) ++ ms; accepts = t.accepts - 1 - n }
      ≡ record t { sent = t.sent ++ m ∷ ms; accepts = t.accepts - suc n }
sent_both t m ms n i = record t { sent = append_assoc t.sent (m ∷ []) ms i; accepts = fewer i }
  where
    fewer : t.accepts - 1 - n ≡ t.accepts - suc n
    fewer = omega arith
