-- ===== src/Transport/Address.antt =====
-- `split_host_port` of ferrotunnel-core/src/transport/quic.rs. The standard library's parsers of socket
-- addresses and of port numbers are arguments.
use ferrotunnel.Base.{
  ℕ, ◌≡◌, refl, arith, [], ◌∷◌, ◌++◌, Option, none, some, false, eqb, All, if◌then◌else◌, Result,
  ok, err,
}
use ferrotunnel.Frame.{Text}

abbrev pub colon : ℕ
colon = 58

abbrev pub opening : ℕ
opening = 91

abbrev pub closing : ℕ
closing = 93

-- `rsplit_once(':')`: around the last colon.
unfoldable pub rsplit_once : Text → Option (Text × Text)
rsplit_once [] = none
rsplit_once (c ∷ t) = elim (rsplit_once t) [
  | some (before, after) ↦ some (c ∷ before, after)
  | none ↦ if eqb c colon then some ([], t) else none
]

-- `split_once("]:")`: around the first such pair.
unfoldable pub split_once : Text → Option (Text × Text)
split_once [] = none
split_once (c ∷ []) = none
split_once (c ∷ d ∷ t) =
    let later = split_once (d ∷ t) in
    if eqb c closing
    then (if eqb d colon
        then some ([], t)
        else elim later [ none ↦ none | some (before, after) ↦ some (c ∷ before, after) ])
    else elim later [ none ↦ none | some (before, after) ↦ some (c ∷ before, after) ]

pub data AddressError : Type 0 where
  invalid_bracketed_address invalid_port missing_port : AddressError

module _ (parse_socket_addr : Text → Option (Text × ℕ)) (parse_port : Text → Option ℕ) where
  unfoldable pub with_port : Text → Text → Result AddressError (Text × ℕ)
  with_port host port_text = elim (parse_port port_text) [
    | none ↦ err invalid_port
    | some port ↦ ok (host, port)
  ]

  -- The rest of an address after its opening bracket.
  unfoldable pub split_bracketed : Text → Result AddressError (Text × ℕ)
  split_bracketed rest = elim (split_once rest) [
    | none ↦ err invalid_bracketed_address
    | some (host, port_text) ↦ with_port host port_text
  ]

  unfoldable pub split_plain : Text → Result AddressError (Text × ℕ)
  split_plain addr = elim (rsplit_once addr) [
    | none ↦ err missing_port
    | some (host, port_text) ↦ with_port host port_text
  ]

  unfoldable pub split_unparsed : Text → Result AddressError (Text × ℕ)
  split_unparsed [] = split_plain []
  split_unparsed (c ∷ rest) = if eqb c opening then split_bracketed rest else split_plain (c ∷ rest)

  unfoldable pub split_host_port : Text → Result AddressError (Text × ℕ)
  split_host_port addr = elim (parse_socket_addr addr) [
    | some (ip, port) ↦ ok (ip, port)
    | none ↦ split_unparsed addr
  ]

abbrev pub Without : ℕ → Text → Type 0
Without c = All (λ d. eqb d c ≡ false)

rsplit_once-none : (t : Text) → Without colon t → rsplit_once t ≡ none
unfolding rsplit_once
rsplit_once-none [] h = refl
rsplit_once-none (c ∷ t) (h, hs) = ground (arith, rsplit_once-none t hs)

rsplit_once-joined :
    (host port : Text) → Without colon port → rsplit_once (host ++ colon ∷ port) ≡ some (host, port)
unfolding rsplit_once
rsplit_once-joined [] port h = ground (arith, rsplit_once-none port h)
rsplit_once-joined (c ∷ host) port h = ground (arith, rsplit_once-joined host port h)

split_once-joined :
    (host port : Text)
    → Without closing host
    → split_once (host ++ closing ∷ colon ∷ port) ≡ some (host, port)
unfolding split_once
split_once-joined [] port h = ground arith
split_once-joined (c ∷ []) port (h, hs) = ground (arith, split_once-joined [] port tt)
split_once-joined (c ∷ d ∷ host) port (h, hs) = ground (arith, split_once-joined (d ∷ host) port hs)

-- An address that is no socket address is split into its host and its port: a bracketed host ends at the
-- first closing bracket before a colon, another at the last colon. The port's text has no colon, a
-- bracketed host no closing bracket, and another host is not empty and does not begin with a bracket.
pub split_host_port_lem :
    (parse_socket_addr : Text → Option (Text × ℕ)) (parse_port : Text → Option ℕ) (c : ℕ)
    (host port : Text)
    → Without colon port
    → Without closing host
    → eqb c opening ≡ false
    → parse_socket_addr (opening ∷ host ++ closing ∷ colon ∷ port) ≡ none
    → parse_socket_addr (c ∷ host ++ colon ∷ port) ≡ none
    → (split_host_port parse_socket_addr parse_port (opening ∷ host ++ closing ∷ colon ∷ port)
        ≡ with_port parse_socket_addr parse_port host port)
      × (split_host_port parse_socket_addr parse_port (c ∷ host ++ colon ∷ port)
          ≡ with_port parse_socket_addr parse_port (c ∷ host) port)
unfolding split_host_port split_unparsed split_bracketed split_plain
split_host_port_lem parse_socket_addr parse_port c host port hp hh hc eb ep = (
  ground (arith, split_once-joined host port hh),
  ground (arith, rsplit_once-joined (c ∷ host) port hp),
)
