-- ===== src/VirtualStream/Shutdown.antt =====
-- `poll_shutdown` of `VirtualStream` (ferrotunnel-core/src/stream/multiplexer.rs).
use ferrotunnel.Base.{◌≡◌, arith, [], ◌∷◌, none, ok, err, Result}
use ferrotunnel.Frame.{Frame, StreamPriority, CloseReason, close_stream}
use ferrotunnel.VirtualStream.{
  VirtualStream, ready, pending, IoError, SendAnswer, poll_shutdown, send_close,
}

abbrev pub close_item : VirtualStream → StreamPriority × Frame
close_item s = (s.priority, close_stream s.stream_id CloseReason.normal)

-- A shutdown without a send under way that is answered at once sends one CloseStream, and none when
-- the send fails; no send is under way behind it, and its answer is the send's.
pub shutdown_at_once :
    (s : VirtualStream) (first : SendAnswer) (r : Result IoError (Unit {0}))
    → s.pending_send ≡ none
    → let (after, frames, answer) = poll_shutdown s first (ready r) in
      (frames ≡ (elim r [ ok _ ↦ close_item s ∷ [] | err _ ↦ [] ]))
      × (after.pending_send ≡ none)
      × (answer ≡ ready r)
unfolding poll_shutdown send_close
shutdown_at_once s first (ok _) h = ground arith
shutdown_at_once s first (err e) h = ground arith

-- A shutdown that has to wait sends CloseStream again: the poll that finds the waiting send done
-- takes it for a write and sends a second frame, and its answer is that of the second. No send is
-- under way at first.
pub waiting_shutdown_closes_twice :
    (s : VirtualStream) (any : SendAnswer)
    → s.pending_send ≡ none
    → let (waiting, none_sent, first_answer) = poll_shutdown s any pending in
      let (after, frames, answer) = poll_shutdown waiting (ready (ok tt)) (ready (ok tt)) in
      (none_sent ≡ [])
      × (first_answer ≡ pending)
      × (frames ≡ close_item s ∷ close_item s ∷ [])
      × (answer ≡ ready (ok tt))
unfolding poll_shutdown send_close
waiting_shutdown_closes_twice s any h = ground arith
