-- ===== src/Client/Configured.antt =====
-- The setters of the client's TLS configuration in ferrotunnel-core/src/tunnel/client.rs.
use ferrotunnel.Base.{◌≡◌, refl}
use ferrotunnel.Frame.{Text}
use ferrotunnel.Client.{TunnelClient, with_tls_skip_verify, with_tls_ca, with_tls, with_server_name}

-- Two setters in either order.
abbrev Commute :
    (TunnelClient → TunnelClient) → (TunnelClient → TunnelClient) → TunnelClient → Type 0
Commute f g c = f (g c) ≡ g (f c)

-- The four TLS setters can be called in any order: none undoes what another has set, whatever
-- transport the client had.
pub tls_setters-Commute :
    (c : TunnelClient) (ca cert key name : Text)
    → Commute with_tls_skip_verify (λ d. with_tls_ca d ca) c
      × Commute with_tls_skip_verify (λ d. with_tls d cert key) c
      × Commute with_tls_skip_verify (λ d. with_server_name d name) c
      × Commute (λ d. with_tls_ca d ca) (λ d. with_tls d cert key) c
      × Commute (λ d. with_tls_ca d ca) (λ d. with_server_name d name) c
      × Commute (λ d. with_tls d cert key) (λ d. with_server_name d name) c
unfolding with_tls_skip_verify with_tls_ca with_tls with_server_name
tls_setters-Commute c ca cert key name = (refl, refl, refl, refl, refl, refl)
