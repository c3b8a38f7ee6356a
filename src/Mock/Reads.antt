-- ===== src/Mock/Reads.antt =====
-- What the client of the tests sends, and what it makes of the server's first messages.
use psql_wire.Base.{
  All, Bytes, List, [], ap, append-nil, append_assoc, arith, codes, equal, length, length-append,
  map, refl, suc, sym, zero, ℕ, ◌++◌, ◌<◌, ◌∙◌, ◌∷◌, ◌≡◌, ◌≤◌,
}
use psql_wire.Buffer.Reader.{Reader}
use psql_wire.Buffer.Reader.Typed.{read_typed_msg-server_message}
use psql_wire.Buffer.Reader.Values.{get_bytes-append, get_uint32-put_uint32}
use psql_wire.Buffer.Stream.{write}
use psql_wire.Buffer.Words.{put_uint32}
use psql_wire.Buffer.Writer.Framing.{server_message}
use psql_wire.Exec.{ok}
use psql_wire.Messages.{server_auth, server_idle, server_parameter_status, server_ready, version_30}
use psql_wire.Mock.{client_authenticate, client_handshake, client_ready_for_query, skip_parameters}
use psql_wire.Wire.Auth.{auth_ok}
use psql_wire.Wire.Context.{Parameters}
use psql_wire.Wire.Handshake.Pairs.{ArePairs, encode_pairs, parameter_status}
use psql_wire.Wire.Handshake.Refused.{startup_message}
use psql_wire.Wire.Response.Sent.{ready_message}
use psql_wire.Wire.Server.{Conn}

abbrev pub mock_pairs : Parameters
mock_pairs = (codes "client", codes "mock") ∷ []

pub mock_pairs-ArePairs : ArePairs mock_pairs
unfolding equal
mock_pairs-ArePairs = ((ground arith, refl, ground arith), tt)

-- `Client.Handshake` sends a startup message of version 3.0 with one parameter.
pub client_handshake-sends :
    (c : Conn)
    → 1 ≤ c.writer.sink.accepts
    → ((client_handshake c).0 ≡ ok tt)
      × ((client_handshake c).1.writer.sink.sent
          ≡ c.writer.sink.sent ++ startup_message version_30 (encode_pairs mock_pairs) ∷ [])
unfolding client_handshake write encode_pairs put_uint32
client_handshake-sends c room = ground (arith, room)

-- What a connection has carried, as one run of bytes.
abbrev pub joined : List Bytes → Bytes
joined [] = []
joined (m ∷ ms) = m ++ joined ms

-- A parameter whose message fits the client.
abbrev pub IsShort : ℕ → Bytes × Bytes → Type 0
IsShort max p = length (p.0 ++ (0 ∷ (p.1 ++ 0 ∷ []))) ≤ max

skip_parameters_lem :
    (ps : Parameters) (fuel : ℕ) (rest : Bytes) (r : Reader)
    → All (IsShort r.max_message_size) ps
    → 1 ≤ r.max_message_size
    → r.max_message_size < 4294967000
    → length ps < fuel
    → r.buffer.pending ≡ joined (map parameter_status ps) ++ (ready_message ++ rest)
    → skip_parameters fuel r ≡ (
      ok server_ready,
      record r { buffer = record (r.buffer) { pending = rest }; msg = server_idle ∷ [] },
    )
unfolding skip_parameters
skip_parameters_lem ps zero rest r short one small enough e = absurd (omega arith)
skip_parameters_lem [] (suc fuel) rest r short one small enough e =
    rw (read_typed_msg-server_message server_ready (server_idle ∷ []) rest r one (omega arith) e)
      refl
skip_parameters_lem ((k, v) ∷ ps) (suc fuel) rest r (fits, short) one small enough e =
    let body = k ++ (0 ∷ (v ++ 0 ∷ [])) in
    let left = joined (map parameter_status ps) ++ (ready_message ++ rest) in
    rw
      (read_typed_msg-server_message server_parameter_status body left r fits (omega arith) (
        e
        ∙ append_assoc (parameter_status (k, v)) (joined (map parameter_status ps))
            (ready_message ++ rest)))
      (skip_parameters_lem ps fuel rest
        (record r { buffer = record (r.buffer) { pending = left }; msg = body }) short one small
        (omega arith) refl)

joined-length : (ps : Parameters) → length ps ≤ length (joined (map parameter_status ps))
joined-length [] = omega arith
joined-length (p ∷ ps) = omega (
  arith,
  joined-length ps,
  length-append {0} (parameter_status p) (joined (map parameter_status ps)),
)

pub client_authenticate_lem :
    (rest : Bytes) (r : Reader)
    → 4 ≤ r.max_message_size
    → r.buffer.pending ≡ server_message server_auth (put_uint32 auth_ok) ++ rest
    → client_authenticate r
      ≡ (ok tt, record r { buffer = record (r.buffer) { pending = rest }; msg = [] })
unfolding client_authenticate
client_authenticate_lem rest r room e =
    rw
      (
        read_typed_msg-server_message server_auth (put_uint32 auth_ok) rest r
            (unfold put_uint32 in room) (unfold put_uint32 in omega arith) e,
        get_uint32-put_uint32 auth_ok []
            (record r { buffer = record (r.buffer) { pending = rest }; msg = put_uint32 auth_ok })
            (omega arith) (sym (append-nil (put_uint32 auth_ok))),
      )
      refl

pub client_ready_for_query_lem :
    (ps : Parameters) (rest : Bytes) (r : Reader)
    → All (IsShort r.max_message_size) ps
    → 1 ≤ r.max_message_size
    → r.max_message_size < 4294967000
    → r.buffer.pending ≡ joined (map parameter_status ps) ++ (ready_message ++ rest)
    → client_ready_for_query r
      ≡ (ok tt, record r { buffer = record (r.buffer) { pending = rest }; msg = [] })
unfolding client_ready_for_query
client_ready_for_query_lem ps rest r short one small e =
    rw
      (
        skip_parameters_lem ps (suc (length r.buffer.pending)) rest r short one small
            (rw e (
              omega (
                arith,
                joined-length ps,
                length-append {0} (joined (map parameter_status ps)) (ready_message ++ rest),
              )))
            e,
        get_bytes-append (server_idle ∷ []) []
            (record r { buffer = record (r.buffer) { pending = rest }; msg = server_idle ∷ [] })
            refl,
      )
      refl

pub joined-append : (xs ys : List Bytes) → joined (xs ++ ys) ≡ joined xs ++ joined ys
joined-append [] ys = refl
joined-append (m ∷ xs) ys =
    ap (◌++◌ m) (joined-append xs ys) ∙ sym (append_assoc m (joined xs) (joined ys))
