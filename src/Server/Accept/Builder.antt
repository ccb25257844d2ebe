-- ===== src/Server/Accept/Builder.antt =====
-- The TLS settings of the server's builder, ferrotunnel-core/src/tunnel/server.rs, in either order.
use ferrotunnel.Base.{◌≡◌, refl}
use ferrotunnel.Frame.{Text}
use ferrotunnel.Transport.{tcp, tls, quic}
use ferrotunnel.Server.Accept.{TunnelServer, with_tls, with_client_auth}

module _ {S Sessions : Type 0} where
  -- A server that gets its certificate and its authorities has one configuration, whichever comes first
  -- and whatever transport it had.
  with_tls-with_client_auth :
      (s : TunnelServer S Sessions) (cert key ca : Text)
      → with_tls (with_client_auth s ca) cert key ≡ with_client_auth (with_tls s cert key) ca
  unfolding with_tls with_client_auth
  with_tls-with_client_auth s cert key ca = elim s.transport_config [
    | tcp ↦ refl
    | tls config ↦ refl
    | quic config ↦ refl
  ]
