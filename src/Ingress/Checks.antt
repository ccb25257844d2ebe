-- ===== src/Ingress/Checks.antt =====
-- The HTTP ingress at concrete headers and bodies.
use ferrotunnel.Base.{
  ℕ, ◌+◌, ◌≡◌, ◌≤◌, ◌↔◌, ◌⊎◌, refl, List, [], ◌∷◌, Option, some, true, false, ◌||◌, if◌then◌else◌,
  bytes_key, length, ok, bytes_eqb,
}
use ferrotunnel.Frame.{Bytes, Text}
use ferrotunnel.Ingress.{
  to_lower, connection, host, strip_hop_by_hop_headers, remove_names, remove_each_named,
  remove_named, split_commas, trim, Polled, chunk, pending, LimitedBody, Awaited, no_data, received,
  finished, collect,
}
use ferrotunnel.Ingress.Sample.{Fields, values_of, fields_map}
use ferrotunnel.Ingress.Headers.{contains, stripped, strip_hop_by_hop_headers_lem}
use ferrotunnel.Ingress.Bodies.{
  polled_bytes, poll_each, too_large_in, poll_each_lem, bytes_of, body_of, completes, collect_iff,
}
use ferrotunnel.Ingress.Host.{parse_and_normalize_host}
use ferrotunnel.Ingress.Host.Routing.{IsHostName, dot_port, parse_and_normalize_host-ending}

-- `Connection: x, host`, `Connection: y`, `x: 1`, `y: 2` and `Host: h`.
abbrev request : Fields
request =
    (connection, 120 ∷ 44 ∷ 32 ∷ host)
    ∷ (connection, 121 ∷ [])
    ∷ (120 ∷ [], 49 ∷ [])
    ∷ (121 ∷ [], 50 ∷ [])
    ∷ (host, 104 ∷ [])
    ∷ []

-- What a second `Connection` value names is left.
strip-second_connection :
    strip_hop_by_hop_headers fields_map request ≡ (121 ∷ [], 50 ∷ []) ∷ (host, 104 ∷ []) ∷ []
unfolding strip_hop_by_hop_headers remove_names remove_each_named remove_named split_commas trim
    to_lower bytes_eqb
strip-second_connection = refl

strip_hop_by_hop_headers_lem_example :
    (values_of (strip_hop_by_hop_headers fields_map request) (120 ∷ []) ≡ (
      if contains (stripped fields_map request) (120 ∷ [])
      then []
      else values_of request (120 ∷ [])))
    × (values_of (strip_hop_by_hop_headers fields_map request) host ≡ values_of request host)
strip_hop_by_hop_headers_lem_example = strip_hop_by_hop_headers_lem fields_map request (120 ∷ [])

abbrev polls : List (Polled ℕ)
polls = chunk (1 ∷ 2 ∷ []) ∷ pending ∷ chunk (3 ∷ 4 ∷ []) ∷ []

abbrev limited : LimitedBody
limited = record { remaining = 3; exceeded = false }

poll_each_lem_example :
    (length (polled_bytes (poll_each limited polls).0) + (poll_each limited polls).1.remaining ≡ 3)
    × (too_large_in (poll_each limited polls).0 ≡ true)
    × ((poll_each limited polls).1.exceeded ≡ (false || too_large_in (poll_each limited polls).0))
    × ((too_large_in (poll_each limited polls).0 ≡ true)
        ⊎ (polled_bytes (poll_each limited polls).0 ≡ polled_bytes polls))
unfolding polled_bytes bytes_of
poll_each_lem_example = poll_each_lem limited polls

abbrev awaited : List Awaited
awaited = received (1 ∷ []) ∷ no_data ∷ received (2 ∷ []) ∷ finished ∷ []

collect_iff_example :
    (collect 2 awaited [] ≡ ok (1 ∷ 2 ∷ []))
    ↔ ((completes awaited ≡ true) × (1 ∷ 2 ∷ [] ≡ body_of awaited) × (2 ≤ 2))
collect_iff_example = collect_iff 2 awaited (1 ∷ 2 ∷ [])

abbrev host_text : Bytes → Option Text
host_text value = some value

host-IsHostName : IsHostName (to_lower (72 ∷ 79 ∷ []))
unfolding to_lower
host-IsHostName = record { plain = (refl, (refl, tt)); first = refl; no_dot = refl }

parse_and_normalize_host-ending_example :
    parse_and_normalize_host host_text (some (72 ∷ 79 ∷ 46 ∷ 58 ∷ 56 ∷ []))
    ≡ ok (to_lower (72 ∷ 79 ∷ []))
parse_and_normalize_host-ending_example =
    parse_and_normalize_host-ending host_text (72 ∷ 79 ∷ 46 ∷ 58 ∷ 56 ∷ []) (72 ∷ 79 ∷ [])
      (dot_port (56 ∷ [])) host-IsHostName (refl, tt) refl
