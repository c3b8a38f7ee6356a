-- ===== src/Buffer/Reader/Ends.antt =====
-- Every call of the reader comes back, takes bytes off the input only, and leaves the rest alone.
use native.Mathlib.Nat.{le_trans}
use psql_wire.Base.{
  Option, arith, length, length-drop, length-take, negsuc, none, pos, refl, some, suc, zero, ℕ, ℤ,
  ◌-◌, ◌<◌, ◌≡◌, ◌≢◌, ◌≤◌,
}
use psql_wire.Buffer.Failures.{unwrap_message_size_exceeded}
use psql_wire.Buffer.Reader.{
  Reader, after_header, after_piece, body_size, get_bytes, get_string, get_uint16, get_uint32,
  read_body, read_msg, read_untyped_msg, slurp, slurp_loop,
}
use psql_wire.Buffer.Reader.Bounded.{get_string_le, read_msg-length}
use psql_wire.Buffer.Reader.Slurped.{piece, piece_bounds, piece_le}
use psql_wire.Buffer.Stream.{Filled, Stream, read_full}
use psql_wire.Errors.{Error}
use psql_wire.Exec.{Exec, stuck}
use psql_wire.Exec.Tame.{Tame, Tame-pure}

-- How many bytes the client still sends.
abbrev pub unread : Reader → ℕ
unread r = length r.buffer.pending

-- The maximum is positive, as `NewReader` makes it, the message in the buffer is no longer than it,
-- and the error that ends the input is none of the reader's own.
pub record IsLive (r : Reader) : Type 0 where
  pub positive : 0 < r.max_message_size
  pub bounded : length r.msg ≤ r.max_message_size
  pub network : unwrap_message_size_exceeded r.buffer.ending ≡ none

abbrev pub TameReader : {A : Type 0} → Exec Reader A → Type 0
TameReader m = Tame unread IsLive m

pub get_string-Tame : TameReader get_string
unfolding get_string
get_string-Tame = record {
  returns = λ r g. ground arith;
  shrinks = λ r g. ground arith;
  keeps = λ r g. ground (arith, get_string_le r, g.bounded);
}

pub get_bytes-Tame : (n : ℕ) → TameReader (get_bytes n)
unfolding get_bytes
get_bytes-Tame n = record {
  returns = λ r g. ground arith;
  shrinks = λ r g. ground arith;
  keeps = λ r g. ground (arith, length-drop {0} n r.msg, g.bounded);
}

pub get_uint16-Tame : TameReader get_uint16
unfolding get_uint16
get_uint16-Tame = record {
  returns = λ r g. ground arith;
  shrinks = λ r g. ground arith;
  keeps = λ r g. ground (arith, length-drop {0} 2 r.msg, g.bounded);
}

pub get_uint32-Tame : TameReader get_uint32
unfolding get_uint32
get_uint32-Tame = record {
  returns = λ r g. ground arith;
  shrinks = λ r g. ground arith;
  keeps = λ r g. ground (arith, length-drop {0} 4 r.msg, g.bounded);
}

-- `io.ReadFull` and the reads on it.
read_full_bounds :
    (size : ℕ) (s : Stream)
    → (length (read_full size s).left.pending ≤ length s.pending)
      × ((read_full size s).left.ending ≡ s.ending)
unfolding read_full
read_full_bounds size s = ground (arith, length-drop {0} size s.pending)

pub read_msg_bounds :
    (size : ℕ) (r : Reader)
    → IsLive r
    → size ≤ r.max_message_size
    → (unread (read_msg size r).2 ≤ unread r) × IsLive (read_msg size r).2
unfolding read_msg
read_msg_bounds size r g h = ground (arith, read_full_bounds size r.buffer, read_msg-length size r)

read_body-Tame : (size : ℤ) → TameReader (read_body size)
read_body-Tame (pos size) = record {
  returns = λ r g. ground arith;
  shrinks = λ r g. ground (arith, read_msg_bounds size r g);
  keeps = λ r g. ground (arith, read_msg_bounds size r g);
}
read_body-Tame (negsuc n) = record {
  returns = λ r g e. cc;
  shrinks = λ r g. omega arith;
  keeps = λ r g. g;
}

-- What follows the header comes back, and has the input that the header left.
module _ (f : Filled) (r : Reader) (live : IsLive r) (less : length f.left.pending ≤ unread r)
    (same : f.left.ending ≡ r.buffer.ending) where
  rest-IsLive : IsLive (record r { buffer = f.left })
  rest-IsLive = record {
    positive = live.positive;
    bounded = live.bounded;
    network = rw same live.network;
  }

  after_header-returns : (o : Option Error) → f.failure ≡ o → (after_header f r).0 ≢ stuck
  after_header-returns (some e) h = rw (h, after_header) (λ p. cc)
  after_header-returns none h =
      rw (h, after_header) ((read_body-Tame (body_size f.bytes)).returns _ rest-IsLive)

  after_header-shrinks : (o : Option Error) → f.failure ≡ o → unread (after_header f r).1 ≤ unread r
  after_header-shrinks (some e) h = rw (h, after_header) less
  after_header-shrinks none h =
      rw (h, after_header)
        (le_trans ((read_body-Tame (body_size f.bytes)).shrinks _ rest-IsLive) less)

  after_header-keeps : (o : Option Error) → f.failure ≡ o → IsLive (after_header f r).1
  after_header-keeps (some e) h = rw (h, after_header) rest-IsLive
  after_header-keeps none h =
      rw (h, after_header) ((read_body-Tame (body_size f.bytes)).keeps _ rest-IsLive)

pub read_untyped_msg-Tame : TameReader read_untyped_msg
unfolding read_untyped_msg
read_untyped_msg-Tame = record {
  returns = λ r g.
      let b = read_full_bounds 4 r.buffer in
      after_header-returns (read_full 4 r.buffer) r g b.0 b.1 _ refl;
  shrinks = λ r g.
      let b = read_full_bounds 4 r.buffer in
      after_header-shrinks (read_full 4 r.buffer) r g b.0 b.1 _ refl;
  keeps = λ r g.
      let b = read_full_bounds 4 r.buffer in
      after_header-keeps (read_full 4 r.buffer) r g b.0 b.1 _ refl;
}

read_msg_count : (size : ℕ) (r : Reader) → (read_msg size r).0 ≡ none → (read_msg size r).1 ≡ size
unfolding read_msg read_full
read_msg_count size r h = ground (arith, length-take {0} size r.buffer.pending)

module _ (f : ℕ → Exec Reader (Unit {0})) (tf : (n : ℕ) → 1 ≤ n → TameReader (f n)) where
  after_piece-returns :
      (p : Option Error × ℕ × Reader)
      → (p.0 ≡ none → 1 ≤ p.1)
      → IsLive p.2
      → (after_piece p f).0 ≢ stuck
  after_piece-returns (none, n, r) h g = (tf n (h refl)).returns r g
  after_piece-returns (some e, n, r) h g = λ p. cc

  after_piece-shrinks :
      (p : Option Error × ℕ × Reader)
      → (p.0 ≡ none → 1 ≤ p.1)
      → IsLive p.2
      → unread (after_piece p f).1 ≤ unread p.2
  after_piece-shrinks (none, n, r) h g = (tf n (h refl)).shrinks r g
  after_piece-shrinks (some e, n, r) h g = omega arith

  after_piece-keeps :
      (p : Option Error × ℕ × Reader)
      → (p.0 ≡ none → 1 ≤ p.1)
      → IsLive p.2
      → IsLive (after_piece p f).1
  after_piece-keeps (none, n, r) h g = (tf n (h refl)).keeps r g
  after_piece-keeps (some e, n, r) h g = g

  -- A read of a message, and what follows it.
  pub after_piece-Tame :
      (size : Reader → ℕ)
      → ((r : Reader) → IsLive r → (1 ≤ size r) × (size r ≤ r.max_message_size))
      → TameReader (λ r. after_piece (read_msg (size r) r) f)
  after_piece-Tame size fits = record {
    returns = λ r g. after_piece-returns (read_msg (size r) r) (counted r g) (bounds r g).1;
    shrinks = λ r g.
        le_trans (after_piece-shrinks (read_msg (size r) r) (counted r g) (bounds r g).1)
          (bounds r g).0;
    keeps = λ r g. after_piece-keeps (read_msg (size r) r) (counted r g) (bounds r g).1;
  }
    where
      bounds :
          (r : Reader)
          → IsLive r
          → (unread (read_msg (size r) r).2 ≤ unread r) × IsLive (read_msg (size r) r).2
      bounds r g = read_msg_bounds (size r) r g (fits r g).1

      counted :
          (r : Reader) → IsLive r → (read_msg (size r) r).0 ≡ none → 1 ≤ (read_msg (size r) r).1
      counted r g e = omega (arith, read_msg_count (size r) r e, (fits r g).0)

-- The loop of `Slurp` comes back: a piece is a byte at least, and a piece that falls short is an
-- error.
pub slurp_loop-Tame : (fuel size : ℕ) → size ≤ fuel → TameReader (slurp_loop fuel size)
unfolding slurp_loop
slurp_loop-Tame fuel zero h = Tame-pure tt
slurp_loop-Tame zero (suc k) h = absurd (omega arith)
slurp_loop-Tame (suc fuel) (suc k) h =
    after_piece-Tame (λ n. slurp_loop fuel (suc k - n))
      (λ n one. slurp_loop-Tame fuel (suc k - n) (omega arith))
      (λ r. piece r.max_message_size (suc k))
      (λ r g.
        ((piece_bounds r.max_message_size k g.positive).0, piece_le r.max_message_size (suc k)))

pub slurp-Tame : (size : ℤ) → TameReader (slurp size)
unfolding slurp
slurp-Tame (pos size) = slurp_loop-Tame size size (omega arith)
slurp-Tame (negsuc n) = Tame-pure tt
