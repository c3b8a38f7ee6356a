-- ===== src/Buffer/Reader/Slurped.antt =====
-- `Slurp` discards a message that is too large, in pieces of at most the maximum size.
use psql_wire.Base.{
  Bytes, Option, ap, arith, drop, drop-drop, if◌then◌else◌, length, length-drop, length-take, ltb,
  none, pos, refl, subst, suc, sym, take, take-append-drop, zero, ℕ, ◌-◌, ◌<◌, ◌∙◌, ◌≡◌, ◌≤◌,
}
use psql_wire.Buffer.Reader.{Reader, after_piece, read_msg, slurp, slurp_loop}
use psql_wire.Buffer.Reader.Typed.{read_msg_enough}
use psql_wire.Errors.{Error}
use psql_wire.Exec.{Result, ok}

-- A message of `size` bytes off the front of what the client sends.
read_msg-take :
    (size : ℕ) (r : Reader)
    → size ≤ length r.buffer.pending
    → read_msg size r ≡ (
      none,
      size,
      record r {
        buffer = record (r.buffer) { pending = drop size r.buffer.pending };
        msg = take size r.buffer.pending;
      },
    )
read_msg-take size r h =
    subst
      (λ (n : ℕ). read_msg n r ≡ (
        none,
        n,
        record r {
          buffer = record (r.buffer) { pending = drop size r.buffer.pending };
          msg = take size r.buffer.pending;
        },
      ))
      (length-take size r.buffer.pending h)
      (read_msg_enough (take size r.buffer.pending) (drop size r.buffer.pending) r
        (sym (take-append-drop size r.buffer.pending)))

abbrev pub piece : ℕ → ℕ → ℕ
piece max k = if ltb max k then max else k

pub piece_bounds : (max k : ℕ) → 0 < max → (1 ≤ piece max (suc k)) × (piece max (suc k) ≤ suc k)
piece_bounds max k h = ground arith

pub piece_le : (max k : ℕ) → piece max k ≤ max
piece_le max k = ground arith

slurp_round :
    (fuel k : ℕ) (r : Reader)
    → piece r.max_message_size (suc k) ≤ length r.buffer.pending
    → slurp_loop (suc fuel) (suc k) r
      ≡ slurp_loop fuel (suc k - piece r.max_message_size (suc k)) (record r {
        buffer = record (r.buffer) {
          pending = drop (piece r.max_message_size (suc k)) r.buffer.pending;
        };
        msg = take (piece r.max_message_size (suc k)) r.buffer.pending;
      })
unfolding slurp_loop
slurp_round fuel k r h =
    ap (λ (p : Option Error × ℕ × Reader). after_piece p (λ n. slurp_loop fuel (suc k - n)))
      (read_msg-take (piece r.max_message_size (suc k)) r h)

-- Everything but the message of the reader.
abbrev pub Slurps : ℕ → Reader → Result (Unit {0}) × Reader → Type 0
Slurps size r p =
    (p.0 ≡ ok tt)
    × (p.1.buffer ≡ record (r.buffer) { pending = drop size r.buffer.pending })
    × (p.1.max_message_size ≡ r.max_message_size)

slurp_loop-Slurps :
    (fuel size : ℕ) (r : Reader)
    → 0 < r.max_message_size
    → size ≤ fuel
    → size ≤ length r.buffer.pending
    → Slurps size r (slurp_loop fuel size r)
slurp_loop-Slurps fuel zero r m f h = unfold slurp_loop in (refl, refl, refl)
slurp_loop-Slurps zero (suc k) r m f h = absurd (omega arith)
slurp_loop-Slurps (suc fuel) (suc k) r m f h =
    let q = piece r.max_message_size (suc k) in
    let bounds : (1 ≤ q) × (q ≤ suc k) = piece_bounds r.max_message_size k m in
    let next : Reader = record r {
      buffer = record (r.buffer) { pending = drop q r.buffer.pending };
      msg = take q r.buffer.pending;
    } in
    let (done, left, same) =
      slurp_loop-Slurps fuel (suc k - q) next m (omega arith)
        (omega (arith, length-drop {0} q r.buffer.pending)) in
    rw (slurp_round fuel k r (omega arith)) (
      done,
      left
          ∙ ap (λ (p : Bytes). record (r.buffer) { pending = p })
              (drop-drop (suc k - q) q (suc k) r.buffer.pending (omega arith)),
      same,
    )

-- Where the client sends that many bytes, `Slurp` succeeds, and exactly they are gone from the input;
-- a size that is not positive takes nothing.
pub slurp-drop :
    (size : ℕ) (r : Reader)
    → 0 < r.max_message_size
    → size ≤ length r.buffer.pending
    → Slurps size r (slurp (pos size) r)
unfolding slurp
slurp-drop size r m h = slurp_loop-Slurps size size r m (omega arith) h
