-- ===== src/Multiplexer/Routing.antt =====
-- Which channel an incoming frame goes to, and what a frame changes.
use ferrotunnel.Base.{
  ℕ, ◌≡◌, ◌≢◌, arith, [], ◌∷◌, none, some, Bool, false, ◌&&◌, is_none, if◌then◌else◌, ◌==◌, nat_key,
  eqb_iff, Option-cases, inl, inr,
}
use ferrotunnel.Base.Maps.{DashMap}
use ferrotunnel.Frame.{
  Frame, OpenStreamFrame, StreamPriority, open_stream, data_frame, close_stream, CloseReason, Bytes,
}
use ferrotunnel.Multiplexer.{
  Multiplexer, Channel, Answer, deliver, accept, process_frame, process_open, process_data,
  process_close,
}

module _ {S P : Type 0} (sm : DashMap ℕ Channel S) (pm : DashMap ℕ StreamPriority P) where
  -- The cache names no channel other than the one that is on record for the stream. It may name a
  -- channel of a stream that is closed.
  pub record IsRouted (m : Multiplexer S P) : Type 0 where
    pub agrees :
        (id : ℕ) (tx tx' : Channel)
        → m.last_sender ≡ some (id, tx)
        → sm.get m.streams id ≡ some tx'
        → tx' ≡ tx

  -- The frame does not open a stream again that the cache still knows from before it was closed.
  abbrev pub IsNewStream : Multiplexer S P → Frame → Type 0
  IsNewStream m (open_stream o) =
      (tx : Channel) → m.last_sender ≡ some (o.stream_id, tx) → sm.get m.streams o.stream_id ≢ none
  IsNewStream m _ = Unit {0}

  -- Every frame keeps the cache true to the streams, unless it opens a closed stream's id again while
  -- the cache still names it.
  pub process_frame-IsRouted :
      (m : Multiplexer S P) (f : Frame) (a : Answer)
      → IsRouted m
      → IsNewStream m f
      → IsRouted (process_frame sm pm m f a).0
  unfolding process_frame process_open process_data process_close
  process_frame-IsRouted m (open_stream o) a v new_stream = record {
    agrees = λ id tx tx' e found. ground (
      arith,
      v.agrees id tx tx',
      new_stream tx,
      sm.get-insert m.streams o.stream_id a.made id,
      sm.get-remove (sm.insert m.streams o.stream_id a.made) o.stream_id id,
    );
  }
  process_frame-IsRouted m (data_frame stream_id bytes eos) a v new_stream = record {
    agrees = λ id tx tx' e found.
        ground (arith, v.agrees id tx tx', sm.get-remove m.streams stream_id id);
  }
  process_frame-IsRouted m (close_stream stream_id reason) a v new_stream = record {
    agrees = λ id tx tx' e found.
        ground (arith, v.agrees id tx tx', sm.get-remove m.streams stream_id id);
  }
  process_frame-IsRouted m _ a v new_stream = record { agrees = v.agrees }

  -- The data of a live stream goes to that stream's channel, whether or not the cache is at hand, and
  -- the streams stay as they are; if the receiving end is gone, nothing is delivered and that stream
  -- alone is taken off the record. The cache is true to the streams.
  pub data-routed :
      (m : Multiplexer S P) (id : ℕ) (bytes : Bytes) (eos : Bool) (a : Answer) (tx : Channel)
      → IsRouted m
      → sm.get m.streams id ≡ some tx
      → let f = data_frame id bytes eos in
        let r = process_frame sm pm m f a in
        (r.1 ≡ (if a.stream_open then deliver tx f ∷ [] else []))
        × ((j : ℕ)
            → sm.get r.0.streams j
              ≡ (if (if a.stream_open then false else id == j) then none else sm.get m.streams j))
  unfolding process_frame process_data
  data-routed m id bytes eos a tx v found = (
    elim (Option-cases m.last_sender) [
      | inl empty ↦ ground arith
      | inr ((cached, c), e) ↦ ground (arith, v.agrees id c tx, eqb_iff cached id)
    ],
    λ j. ground (arith, sm.get-remove m.streams id j),
  )

  -- A `CloseStream` takes the stream and its priority off the record, and no other; the frame goes to
  -- the stream's channel if that is live and its receiving end is there.
  pub close-routed :
      (m : Multiplexer S P) (id : ℕ) (reason : CloseReason) (a : Answer)
      → IsRouted m
      → let f = close_stream id reason in
        let r = process_frame sm pm m f a in
        ((tx : Channel)
          → sm.get m.streams id ≡ some tx
          → r.1 ≡ (if a.stream_open then deliver tx f ∷ [] else []))
        × ((j : ℕ) → sm.get r.0.streams j ≡ (if id == j then none else sm.get m.streams j))
        × ((j : ℕ)
            → pm.get r.0.stream_priorities j
              ≡ (if id == j then none else pm.get m.stream_priorities j))
  unfolding process_frame process_close
  close-routed m id reason a v = (
    λ tx found. elim (Option-cases m.last_sender) [
      | inl empty ↦ ground arith
      | inr ((cached, c), e) ↦ ground (arith, v.agrees id c tx, eqb_iff cached id)
    ],
    λ j. ground (arith, sm.get-remove m.streams id j),
    λ j. ground (arith, pm.get-remove m.stream_priorities id j),
  )

  -- An `OpenStream` for a live stream changes nothing. For any other id, the new channel is put on
  -- record with the stream's priority and handed to the acceptor; if the acceptor is gone, the stream
  -- is taken off the record again, but its priority stays.
  pub open-routed :
      (m : Multiplexer S P) (o : OpenStreamFrame) (a : Answer)
      → let r = process_frame sm pm m (open_stream o) a in
        let is_new = is_none (sm.get m.streams o.stream_id) in
        (r.1 ≡ (
          if is_new && a.acceptor_open
          then accept o.stream_id a.made o.priority o.protocol ∷ []
          else []))
        × ((j : ℕ)
            → sm.get r.0.streams j ≡ (
                if is_new && a.acceptor_open && o.stream_id == j
                then some a.made
                else sm.get m.streams j))
        × ((j : ℕ)
            → pm.get r.0.stream_priorities j ≡ (
                if is_new && o.stream_id == j
                then some o.priority
                else pm.get m.stream_priorities j))
  unfolding process_frame process_open
  open-routed m o a = (
    ground arith,
    λ j. ground (
      arith,
      sm.get-insert m.streams o.stream_id a.made j,
      sm.get-remove (sm.insert m.streams o.stream_id a.made) o.stream_id j,
      eqb_iff o.stream_id j,
    ),
    λ j. ground (arith, pm.get-insert m.stream_priorities o.stream_id o.priority j),
  )
