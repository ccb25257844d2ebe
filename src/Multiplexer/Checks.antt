-- ===== src/Multiplexer/Checks.antt =====
-- The multiplexer over association lists, and its theorems at concrete frames.
use ferrotunnel.Base.{ℕ, ◌≡◌, refl, arith, List, [], ◌∷◌, none, some, nat_key, ok, true, false}
use ferrotunnel.Base.Maps.{DashMap, assoc_map}
use ferrotunnel.Frame.{
  Frame, OpenStreamFrame, StreamPriority, Protocol, CloseReason, open_stream, data_frame,
  close_stream,
}
use ferrotunnel.Multiplexer.{
  Multiplexer, Channel, Answer, deliver, process_frame, open_stream_with_priority,
}
use ferrotunnel.Multiplexer.Routing.{IsRouted, process_frame-IsRouted, data-routed}
use ferrotunnel.Multiplexer.Reopen.{reopened_stream_starves, own_open_replaces_peer_stream}

abbrev streams : DashMap ℕ Channel (List (ℕ × Channel))
streams = assoc_map

abbrev priorities : DashMap ℕ StreamPriority (List (ℕ × StreamPriority))
priorities = assoc_map

abbrev calm : Channel → Answer
calm made = record {
  made = made;
  reads_cache = true;
  writes_cache = true;
  stream_open = true;
  acceptor_open = true;
  wire = ok tt;
}

abbrev request : ℕ → OpenStreamFrame
request id = record {
  stream_id = id;
  protocol = Protocol.http;
  headers = [];
  body_hint = none;
  priority = StreamPriority.high;
}

-- Stream 5 is open on channel 100, and the cache holds it.
abbrev busy : Multiplexer (List (ℕ × Channel)) (List (ℕ × StreamPriority))
busy = record {
  streams = (5, 100) ∷ [];
  stream_priorities = (5, StreamPriority.high) ∷ [];
  last_sender = some (5, 100);
  next_stream_id = 2;
}

busy-IsRouted : IsRouted streams priorities busy
busy-IsRouted = record { agrees = λ id tx tx' e found. ground arith }

abbrev two_bytes : Frame
two_bytes = data_frame 5 (1 ∷ 2 ∷ []) false

process_frame-IsRouted_example :
    IsRouted streams priorities (process_frame streams priorities busy two_bytes (calm 8)).0
process_frame-IsRouted_example =
    process_frame-IsRouted streams priorities busy two_bytes (calm 8) busy-IsRouted tt

data-routed_example :
    ((process_frame streams priorities busy two_bytes (calm 8)).1 ≡ deliver 100 two_bytes ∷ [])
    × ((j : ℕ)
        → streams.get (process_frame streams priorities busy two_bytes (calm 8)).0.streams j
          ≡ streams.get busy.streams j)
data-routed_example =
    data-routed streams priorities busy 5 (1 ∷ 2 ∷ []) false (calm 8) 100 busy-IsRouted refl

abbrev close_five : Frame
close_five = close_stream 5 CloseReason.normal

reopened_stream_starves_example :
    (streams.get
        (process_frame streams priorities
          (process_frame streams priorities busy close_five (calm 8)).0
          (open_stream (request 5))
          (calm 200)).0.streams
        5
      ≡ some 200)
    × ((process_frame streams priorities
          (process_frame streams priorities
            (process_frame streams priorities busy close_five (calm 8)).0
            (open_stream (request 5))
            (calm 200)).0
          two_bytes
          (calm 8)).1
        ≡ deliver 100 two_bytes ∷ [])
reopened_stream_starves_example =
    reopened_stream_starves streams priorities busy (request 5) 100 CloseReason.normal (1 ∷ 2 ∷ [])
      false (calm 8) (calm 200) refl (refl, refl, refl, refl) (refl, refl, refl, refl)

own_open_replaces_peer_stream_example :
    let opened = (process_frame streams priorities busy (open_stream (request 2)) (calm 8)).0 in
    let r =
      open_stream_with_priority streams priorities opened Protocol.http StreamPriority.low
        (calm 9) in
    (streams.get opened.streams 2 ≡ some 8) × (r.0 ≡ ok 2) × (streams.get r.1.streams 2 ≡ some 9)
own_open_replaces_peer_stream_example =
    own_open_replaces_peer_stream streams priorities busy (request 2) Protocol.http
      StreamPriority.low (calm 8) (calm 9) refl (omega arith) refl (refl, refl, refl, refl) refl
