-- ===== src/VirtualStream/Pooled.antt =====
-- Where a stream's read buffer comes from and where it goes: the pool of the multiplexer in
-- ferrotunnel-core/src/stream/multiplexer.rs, with `Drop for VirtualStream`.
use ferrotunnel.Base.{ℕ, ◌≤◌, ◌≡◌, ap, ◌∙◌, [], length, Option, none, some, inl, inr}
use ferrotunnel.Frame.{Bytes, StreamPriority, Protocol}
use ferrotunnel.Pools.{ObjectPool, cleared, try_acquire, release_object}
use ferrotunnel.Pools.Objects.{PoolRun, try_acquire-IsClean}
use ferrotunnel.VirtualStream.{VirtualStream, new_stream}

abbrev pub ReadBufferPool : Type 0
ReadBufferPool = ObjectPool Bytes

-- `unwrap_or_default`.
abbrev buffer_or_default : Option Bytes → Bytes
buffer_or_default none = []
buffer_or_default (some buffer) = buffer

-- A stream that the multiplexer makes, for its own user or for the peer's `OpenStream`.
unfoldable pub pooled_stream :
    ReadBufferPool → ℕ → StreamPriority → Protocol → VirtualStream × ReadBufferPool
pooled_stream pool id priority protocol =
    let (buffer, after) = try_acquire pool in
    (new_stream id priority (buffer_or_default buffer) protocol, after)

-- `Drop for VirtualStream`.
unfoldable pub drop_stream : ReadBufferPool → VirtualStream → ReadBufferPool
drop_stream pool s = release_object cleared pool s.read_buffer

-- The pool through streams that are made, and streams in any state that end.
pub data StreamsRun (capacity : ℕ) : ReadBufferPool → Type 0 where
  started : StreamsRun capacity (record { queue = []; capacity = capacity })
  made :
      {pool : ReadBufferPool}
      → StreamsRun capacity pool
      → (id : ℕ) → (priority : StreamPriority) → (protocol : Protocol)
      → StreamsRun capacity (pooled_stream pool id priority protocol).1
  ended :
      {pool : ReadBufferPool}
      → StreamsRun capacity pool
      → (s : VirtualStream) → StreamsRun capacity (drop_stream pool s)

StreamsRun-PoolRun :
    (capacity : ℕ) (pool : ReadBufferPool)
    → StreamsRun capacity pool
    → PoolRun cleared capacity pool
unfolding pooled_stream drop_stream
StreamsRun-PoolRun capacity _ started = PoolRun.started
StreamsRun-PoolRun capacity _ (made {pool = pool} run id priority protocol) =
    PoolRun.acquired (StreamsRun-PoolRun capacity pool run)
StreamsRun-PoolRun capacity _ (ended {pool = pool} run s) =
    PoolRun.released (StreamsRun-PoolRun capacity pool run) s.read_buffer

-- However streams came and went before, and with whatever unread bytes, a new stream starts with an
-- empty buffer, so that it has no bytes of a stream that ended. The pool keeps no more buffers than its
-- capacity.
pub pooled_stream_fresh :
    (capacity : ℕ) (pool : ReadBufferPool) (id : ℕ) (priority : StreamPriority)
    (protocol : Protocol)
    → StreamsRun capacity pool
    → ((pooled_stream pool id priority protocol).0 ≡ new_stream id priority [] protocol)
      × (length pool.queue ≤ capacity)
unfolding pooled_stream
pooled_stream_fresh capacity pool id priority protocol run =
    let (bound, found) =
      try_acquire-IsClean cleared capacity pool (StreamsRun-PoolRun capacity pool run) in
    (
      elim found [
        | inl missing ↦ ap (λ b. new_stream id priority (buffer_or_default b) protocol) missing
        | inr (buffer, got, (used, clean)) ↦
            ap (λ b. new_stream id priority (buffer_or_default b) protocol) got
            ∙ ap (λ b. new_stream id priority b protocol) clean
      ],
      bound,
    )
