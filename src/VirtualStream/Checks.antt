-- ===== src/VirtualStream/Checks.antt =====
-- Runs of a virtual stream, and its theorems at concrete inputs.
use ferrotunnel.Base.{◌≡◌, ◌↔◌, ◌≤◌, length, refl, arith, List, [], ◌∷◌, ◌++◌, false, ok, All, inl}
use ferrotunnel.Frame.{StreamPriority, Protocol, data_frame}
use ferrotunnel.VirtualStream.Pooled as Pooled
use ferrotunnel.VirtualStream.Pooled.{ReadBufferPool, pooled_stream_fresh}
use ferrotunnel.VirtualStream.{
  VirtualStream, Received, frame, ready, pending, new_stream, poll_read, poll_shutdown,
  read_channel, read_buffered, read_leftover, take_received,
}
use ferrotunnel.VirtualStream.Reading.{
  reads, reads_lem, unread, payloads, EndsReading, poll_read-iff-EndsReading,
}
use ferrotunnel.VirtualStream.Writing.{writes, writes_lem, written, IsChunk}
use ferrotunnel.VirtualStream.Shutdown.{close_item, waiting_shutdown_closes_twice}

abbrev seven : VirtualStream
seven = new_stream 7 StreamPriority.high [] Protocol.tcp

-- A frame of three bytes, a waiting channel, and a frame of one.
abbrev abc : List Received
abc = frame (data_frame 7 (97 ∷ 98 ∷ 99 ∷ []) false) ∷ frame (data_frame 7 (100 ∷ []) false) ∷ []

two_reads : (reads seven (2 ∷ 5 ∷ 5 ∷ 5 ∷ []) abc).0 ≡ 97 ∷ 98 ∷ 99 ∷ 100 ∷ []
unfolding reads poll_read read_leftover read_buffered read_channel take_received new_stream
two_reads = refl

reads_lem_example :
    let (bytes, last, rest) = reads seven (2 ∷ 5 ∷ []) abc in
    bytes ++ (unread last ++ payloads rest) ≡ unread seven ++ payloads abc
reads_lem_example = reads_lem seven (2 ∷ 5 ∷ []) abc

-- A frame without bytes ends the reading.
poll_read-iff-EndsReading_example :
    ((poll_read seven 4 (frame (data_frame 7 [] false) ∷ abc)).2 ≡ ready (ok []))
    ↔ EndsReading (frame (data_frame 7 [] false) ∷ abc)
unfolding new_stream
poll_read-iff-EndsReading_example =
    poll_read-iff-EndsReading seven 4 (frame (data_frame 7 [] false) ∷ abc) (refl, refl)
      (omega arith)

writes_lem_example :
    let (frames, rest, last) = writes seven (1 ∷ 2 ∷ []) (pending ∷ ready (ok tt) ∷ []) in
    (written frames ++ rest ≡ 1 ∷ 2 ∷ []) × All (IsChunk seven.stream_id seven.priority) frames
unfolding new_stream
writes_lem_example = writes_lem seven (1 ∷ 2 ∷ []) (pending ∷ ready (ok tt) ∷ []) (inl refl)

waiting_shutdown_closes_twice_example :
    let (waiting, none_sent, first_answer) = poll_shutdown seven pending pending in
    let (after, frames, answer) = poll_shutdown waiting (ready (ok tt)) (ready (ok tt)) in
    (none_sent ≡ [])
    × (first_answer ≡ pending)
    × (frames ≡ close_item seven ∷ close_item seven ∷ [])
    × (answer ≡ ready (ok tt))
unfolding new_stream
waiting_shutdown_closes_twice_example = waiting_shutdown_closes_twice seven pending refl

abbrev start_pool : ReadBufferPool
start_pool = record { queue = []; capacity = 256 }

-- A stream that ends with unread bytes, and the pool that it leaves.
abbrev unread_left : ReadBufferPool
unread_left =
    Pooled.drop_stream start_pool (new_stream 1 StreamPriority.normal (1 ∷ 2 ∷ []) Protocol.http)

pooled_stream_fresh_example :
    ((Pooled.pooled_stream unread_left 3 StreamPriority.normal Protocol.http).0
      ≡ new_stream 3 StreamPriority.normal [] Protocol.http)
    × (length unread_left.queue ≤ 256)
pooled_stream_fresh_example =
    pooled_stream_fresh 256 unread_left 3 StreamPriority.normal Protocol.http
      (Pooled.ended Pooled.started (new_stream 1 StreamPriority.normal (1 ∷ 2 ∷ []) Protocol.http))
