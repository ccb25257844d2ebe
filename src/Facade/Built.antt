-- ===== src/Facade/Built.antt =====
-- What the builders of ferrotunnel/src/client.rs and server.rs build.
use ferrotunnel.Base.{◌≡◌, arith, none, some, Result, ok, err, Result-cases, Option-cases, inl, inr}
use ferrotunnel.Codec.{map_error}
use ferrotunnel.Limits.{validate_limits}
use ferrotunnel.Auth.{validate_token_format}
use ferrotunnel.Client.{invalid_token, check_config, new_client}
use ferrotunnel.Transport.{
  TlsConfig, QuicConfig, TransportConfig, tls, quic, tls_from_common, quic_from_common,
}
use ferrotunnel.Facade.{
  FacadeError, ClientConfig, Builder, validate_client, with_tls_config, with_quic_config, build,
  tunnel_client, transport_or_tcp,
}

-- The transport that was asked for last is the one that is built, whatever was asked for before, also
-- when that was refused: a TLS configuration that the check refuses fails the build with its error, one
-- that it accepts is used, and so is an enabled QUIC configuration; a disabled one changes nothing. The
-- builder's configuration is valid.
pub build_uses_last :
    {Config : Type 0} (validate : Config → Result FacadeError (Unit {0}))
    (check : TlsConfig → Result FacadeError (Unit {0})) (b : Builder Config) (t : TlsConfig)
    (q : QuicConfig)
    → validate b.config ≡ ok tt
    → (build validate (with_tls_config check b t) ≡ elim (check t) [
      | err e ↦ err e
      | ok _ ↦ elim (tls_from_common t) [
        | some u ↦ ok (b.config, tls u)
        | none ↦ ok (b.config, transport_or_tcp b.transport_config)
      ]
    ])
      × (build validate (with_quic_config b q)
          ≡ elim (quic_from_common q) [ some r ↦ ok (b.config, quic r) | none ↦ build validate b ])
unfolding build with_tls_config with_quic_config
build_uses_last validate check b t q h = (
  elim (Result-cases (check t)) [
    | inr (e, refused) ↦ ground arith
    | inl (done, accepted) ↦ elim (Option-cases (tls_from_common t)) [
      | inl disabled ↦ ground arith
      | inr (u, given) ↦ ground arith
    ]
  ],
  elim (Option-cases (quic_from_common q)) [
    | inl disabled ↦ ground arith
    | inr (r, given) ↦ ground arith
  ],
)

-- A client that is built passes its connections' check of the limits, so that only a token that is not
-- well formed keeps it from connecting.
pub build-check_config :
    (b : Builder ClientConfig) (c : ClientConfig) (transport : TransportConfig)
    → build validate_client b ≡ ok (c, transport)
    → check_config (tunnel_client c transport)
      ≡ map_error invalid_token (validate_token_format c.token 256)
unfolding build validate_client check_config tunnel_client new_client
build-check_config b c transport h = elim (Result-cases (validate_limits c.limits_config)) [
  | inl (done, e) ↦ ground arith
  | inr (bad, e) ↦ absurd (ground arith)
]
