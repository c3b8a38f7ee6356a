-- ===== src/Wire/Serve/Ends.antt =====
-- A connection that is served ends, whatever the client sends.
use psql_wire.Base.{
  Bool, Bytes, Option, arith, false, if◌then◌else◌, negsuc, none, pos, refl, some, subst, suc, true,
  zero, ℤ, ◌<◌, ◌==◌, ◌≡◌, ◌≢◌,
}
use psql_wire.Buffer.Failures.{unwrap_message_size_exceeded}
use psql_wire.Buffer.Reader.{buffer_size, new_reader}
use psql_wire.Buffer.Reader.Ends.{IsLive, get_uint32-Tame, read_untyped_msg-Tame}
use psql_wire.Buffer.Stream.{Stream, write}
use psql_wire.Buffer.Writer.Returning.{Emits-Returns}
use psql_wire.Exec.{ok, pure, stuck, ◌>>=◌}
use psql_wire.Exec.Tame.{Tame-bind, Tame-check, Tame-if, Tame-pure, Tame-then}
use psql_wire.Messages.{version_cancel, version_ssl_request}
use psql_wire.Wire.Auth.{auth_ok, handle_auth}
use psql_wire.Wire.Auth.Decision.{write_auth_type-Emits}
use psql_wire.Wire.Command.Ends.{consume_commands-ne-stuck}
use psql_wire.Wire.Command.Handlers.{IsServer, Live, close_connection-Tame}
use psql_wire.Wire.Context.{ConnInfo, Context, Parameters, set_type_info}
use psql_wire.Wire.DataWriter.Returning.{IsContext, IsTypes}
use psql_wire.Wire.Handshake.{
  handshake, potential_conn_upgrade, read_version, refuse_ssl, ssl_supported, ssl_unsupported,
  unexpected_cancel, upgrade, upgrade_reader, write_raw,
}
use psql_wire.Wire.Serve.{open_session, serve, serve_open, serve_session}
use psql_wire.Wire.Serve.Leads.{
  Answers, Leads, after_lead, bind_returns, read_client_parameters-Leads, write_parameters-Leads,
}
use psql_wire.Wire.Server.{
  AuthStrategy, Conn, Server, SessionHandler, World, close_connection, on_conn, on_reader,
}
use psql_wire.Wire.Server.Returning.{TameConn, on_reader-Tame}

-- What the server's configuration answers: the strategy and the session handler come back, and what
-- the handler and the TLS library hand on is fit for what follows.
pub record IsConfigured {V : Type 0} (srv : Server V) (tls : Stream → Stream) : Type 0 where
  pub server : IsServer srv
  pub types : IsTypes srv.types
  pub auth :
      (strategy : AuthStrategy V) (ctx : Context V)
      → srv.auth ≡ some strategy
      → TameConn (strategy ctx)
  pub session_returns :
      (handler : SessionHandler V) (ctx : Context V)
      → srv.session ≡ some handler
      → handler ctx ≢ stuck
  pub session_context :
      (handler : SessionHandler V) (ctx : Context V)
      → srv.session ≡ some handler
      → IsContext ctx
      → Answers IsContext (handler ctx)
  pub tls_network :
      (s : Stream)
      → unwrap_message_size_exceeded s.ending ≡ none
      → unwrap_message_size_exceeded (tls s).ending ≡ none

module _ {V : Type 0} (srv : Server V) (tls : Stream → Stream) (order : Parameters → Parameters)
    (configured : IsConfigured srv tls) where
  auth_lem :
      (strategy : Option (AuthStrategy V)) (ctx : Context V)
      → srv.auth ≡ strategy
      → TameConn (handle_auth srv ctx)
  unfolding handle_auth
  auth_lem none ctx e = record {
    returns = λ c g.
        rw (e, handle_auth) ((Emits-Returns _ (write_auth_type-Emits auth_ok)).returns c.writer tt);
    shrinks = λ c g. omega arith;
    keeps = λ c g. rw (e, handle_auth) g;
  }
  auth_lem (some strategy) ctx e = rw (e, handle_auth) (configured.auth strategy ctx e)

  handle_auth-Leads :
      (ctx : Context V) → Leads {S = World V} Live (λ a. Unit {0}) (on_conn (handle_auth srv ctx))
  handle_auth-Leads ctx =
      let tm = auth_lem srv.auth ctx refl in
      record {
        returns = λ w g. tm.returns w.conn g;
        keeps = λ w g. tm.keeps w.conn g;
        gives = λ w a g e. tt;
      }

  session_lem :
      (handler : Option (SessionHandler V)) (ctx : Context V)
      → srv.session ≡ handler
      → IsContext ctx
      → Leads {S = World V} Live IsContext (open_session srv tls order ctx)
  unfolding open_session
  session_lem none ctx e h =
      rw (e, open_session)
        (record { returns = λ w g q. cc; keeps = λ w g. g; gives = λ w a g q. absurd cc })
  session_lem (some handler) ctx e h =
      rw (e, open_session)
        (record {
          returns = λ w g. configured.session_returns handler ctx e;
          keeps = λ w g. g;
          gives =
              λ w a g q. subst (Answers IsContext) q (configured.session_context handler ctx e h);
        })

  serve_session-ne-stuck :
      (ctx : Context V) (w : World V)
      → IsContext ctx
      → Live w
      → (serve_session srv tls order ctx w).0 ≢ stuck
  unfolding serve_session
  serve_session-ne-stuck ctx w h g =
      bind_returns _ _ g (read_client_parameters-Leads ctx h) (λ ctx₁ h₁ w₁ g₁.
        bind_returns _ w₁ g₁ (handle_auth-Leads ctx₁) (λ u t w₂ g₂.
          bind_returns _ w₂ g₂ (write_parameters-Leads order srv ctx₁ h₁) (λ ctx₂ h₂ w₃ g₃.
            bind_returns _ w₃ g₃ (session_lem srv.session ctx₂ refl h₂)
              (λ ctx₃ h₃ w₄ g₄. consume_commands-ne-stuck srv ctx₃ configured.server h₃ w₄ g₄))))

  write_raw-Tame : (bytes : Bytes) → TameConn (write_raw bytes)
  unfolding write
  write_raw-Tame bytes = record {
    returns = λ c g. ground arith;
    shrinks = λ c g. omega arith;
    keeps = λ c g. g;
  }

  read_version-Tame : TameConn (on_reader read_version)
  unfolding read_version
  read_version-Tame = on_reader-Tame (Tame-then read_untyped_msg-Tame get_uint32-Tame)

  buffer_size-positive : (z : ℤ) → 0 < buffer_size z
  unfolding buffer_size
  buffer_size-positive (pos zero) = omega arith
  buffer_size-positive (pos (suc n)) = omega arith
  buffer_size-positive (negsuc n) = omega arith

  new_reader-IsLive :
      (s : Stream)
      → unwrap_message_size_exceeded s.ending ≡ none
      → IsLive (new_reader s srv.buffered_msg_size)
  unfolding new_reader
  new_reader-IsLive s h = record {
    positive = buffer_size-positive srv.buffered_msg_size;
    bounded = omega arith;
    network = h;
  }

  upgraded-Tame :
      TameConn {A = Unit {0}}
        (λ c. (ok tt, record c { reader = upgrade_reader tls srv.buffered_msg_size c.reader }))
  unfolding upgrade_reader
  upgraded-Tame = record {
    returns = λ c g q. cc;
    shrinks = λ c g. omega arith;
    keeps = λ c g. new_reader-IsLive _ (configured.tls_network _ g.network);
  }

  upgrade-Tame : TameConn (upgrade srv tls)
  unfolding upgrade
  upgrade-Tame =
      Tame-then (write_raw-Tame ssl_supported) (Tame-then upgraded-Tame read_version-Tame)

  refuse_ssl-Tame : TameConn refuse_ssl
  unfolding refuse_ssl
  refuse_ssl-Tame = Tame-then (write_raw-Tame ssl_unsupported) (
      Tame-bind _
        (λ v.
          Tame-then (Tame-check (if v == version_cancel then some unexpected_cancel else none))
            (Tame-pure v))
        read_version-Tame)

  handshake_rest-Tame : TameConn (
      on_reader read_version
      >>= (λ v. if v == version_cancel then pure v else potential_conn_upgrade srv tls v))
  unfolding potential_conn_upgrade
  handshake_rest-Tame =
      Tame-bind _
        (λ v. Tame-if (v == version_cancel) (Tame-pure v) (
          Tame-if (v == version_ssl_request)
            (Tame-if (srv.certificates == 0) refuse_ssl-Tame upgrade-Tame) (Tame-pure v)))
        read_version-Tame

  set_type_info-IsContext : (ctx : Context V) → IsContext (set_type_info srv.types ctx)
  unfolding set_type_info
  set_type_info-IsContext ctx = record { types = λ ci e. subst types_of e configured.types }
    where
      types_of : Option (ConnInfo V) → Type 0
      types_of none = Unit {0}
      types_of (some ci) = IsTypes ci

  go_on :
      (ctx : Context V) (cancels : Bool) (w : World V)
      → Live w
      → ((if cancels
            then on_conn close_connection
            else serve_session srv tls order (set_type_info srv.types ctx))
          w).0
        ≢ stuck
  go_on ctx true w g = close_connection-Tame.returns w g
  go_on ctx false w g =
      serve_session-ne-stuck (set_type_info srv.types ctx) w (set_type_info-IsContext ctx) g

  -- `serve` comes back on every input, from the handshake to the deferred close, in whatever state
  -- the connection, the caches and the parameters are, if the configuration does what
  -- `IsConfigured` asks and the network's error is none of the reader's.
  pub serve-ne-stuck :
      (ctx : Context V) (w : World V)
      → unwrap_message_size_exceeded w.conn.reader.buffer.ending ≡ none
      → (serve srv tls order ctx w).0 ≢ stuck
  unfolding serve serve_open handshake
  serve-ne-stuck ctx w h =
      let c : Conn = record (w.conn) {
        reader = new_reader w.conn.reader.buffer srv.buffered_msg_size;
      } in
      let g = new_reader-IsLive w.conn.reader.buffer h in
      after_lead {Good = Live} {P = λ v. Unit {0}} _ _ (handshake_rest-Tame.returns c g)
        (handshake_rest-Tame.keeps c g) (λ a e. tt)
        (λ v t w' g'. go_on ctx (v == version_cancel) w' g')
