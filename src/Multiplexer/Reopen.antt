-- ===== src/Multiplexer/Reopen.antt =====
-- The sender cache outlives its stream: what happens when a closed stream's id is opened again, and
-- when the peer opens an id of this side's parity.
use ferrotunnel.Base.{ℕ, ◌+◌, ◌≤◌, ◌≡◌, arith, [], ◌∷◌, none, some, Bool, true, nat_key, ok}
use ferrotunnel.Base.Maps.{DashMap}
use ferrotunnel.Base.Words.{u32_max}
use ferrotunnel.Frame.{
  OpenStreamFrame, StreamPriority, Protocol, open_stream, data_frame, close_stream, CloseReason,
  Bytes,
}
use ferrotunnel.Multiplexer.{
  Multiplexer, Channel, Answer, deliver, process_frame, process_open, process_data, process_close,
  open_stream_with_priority,
}

-- Every receiving end is there and the cache can be locked.
abbrev pub IsCalm : Answer → Type 0
IsCalm a =
    (a.reads_cache ≡ true)
    × (a.writes_cache ≡ true)
    × (a.stream_open ≡ true)
    × (a.acceptor_open ≡ true)

module _ {S P : Type 0} (sm : DashMap ℕ Channel S) (pm : DashMap ℕ StreamPriority P) where
  -- A stream that the cache names is closed and opened again under the same id: the next data frame
  -- goes to the channel of the closed stream, though the new stream's channel is on record. The
  -- receiving ends are there, and the cache can be locked.
  pub reopened_stream_starves :
      (m : Multiplexer S P) (o : OpenStreamFrame) (tx : Channel) (reason : CloseReason)
      (bytes : Bytes) (eos : Bool) (a a' : Answer)
      → m.last_sender ≡ some (o.stream_id, tx)
      → IsCalm a
      → IsCalm a'
      → let closed = (process_frame sm pm m (close_stream o.stream_id reason) a).0 in
        let opened = (process_frame sm pm closed (open_stream o) a').0 in
        let f = data_frame o.stream_id bytes eos in
        (sm.get opened.streams o.stream_id ≡ some a'.made)
        × ((process_frame sm pm opened f a).1 ≡ deliver tx f ∷ [])
  unfolding process_frame process_open process_data process_close
  reopened_stream_starves m o tx reason bytes eos a a' e ha ha' =
      let gone = sm.remove m.streams o.stream_id in
      (
        ground (
          arith,
          sm.get-insert gone o.stream_id a'.made o.stream_id,
          sm.get-remove m.streams o.stream_id o.stream_id,
        ),
        ground (
          arith,
          sm.get-insert gone o.stream_id a'.made o.stream_id,
          sm.get-remove m.streams o.stream_id o.stream_id,
        ),
      )

  -- The peer may open the id that this side gives next: it is put on record, and this side's own open
  -- then succeeds under the same id and puts its own channel in the place of the peer's. The id is not
  -- the last one, the acceptor is there, and the wire takes the frame.
  pub own_open_replaces_peer_stream :
      (m : Multiplexer S P) (o : OpenStreamFrame) (protocol : Protocol) (priority : StreamPriority)
      (a a' : Answer)
      → o.stream_id ≡ m.next_stream_id
      → m.next_stream_id + 2 ≤ u32_max
      → sm.get m.streams o.stream_id ≡ none
      → IsCalm a
      → a'.wire ≡ ok tt
      → let opened = (process_frame sm pm m (open_stream o) a).0 in
        let r = open_stream_with_priority sm pm opened protocol priority a' in
        (sm.get opened.streams o.stream_id ≡ some a.made)
        × (r.0 ≡ ok o.stream_id)
        × (sm.get r.1.streams o.stream_id ≡ some a'.made)
  unfolding process_frame process_open open_stream_with_priority
  own_open_replaces_peer_stream m o protocol priority a a' e room vacant ha wired =
      let entered = sm.insert m.streams o.stream_id a.made in
      ground (
        arith,
        sm.get-insert m.streams o.stream_id a.made o.stream_id,
        sm.get-insert entered m.next_stream_id a'.made o.stream_id,
      )
