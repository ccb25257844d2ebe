-- ===== src/BatchedSender/Sink.antt =====
-- tokio's `AsyncWrite`, which the sender calls: one vectored write takes a first part of the slices'
-- bytes, or fails and takes none. `received` is what the other end has been given.
use ferrotunnel.Base.{ℕ, ◌≤◌, ◌≡◌, List, [], ◌∷◌, ◌++◌, take, length, Result, ok, err}
use ferrotunnel.Frame.{Bytes}

pub data WriteError : Type 0 where
  write_zero : WriteError
  io_error : ℕ → WriteError

abbrev pub all_bytes : List Bytes → Bytes
all_bytes [] = []
all_bytes (buf ∷ bufs) = buf ++ all_bytes bufs

pub record Writer (W : Type 0) : Type 0 where
  pub write_vectored : W → List Bytes → Result WriteError ℕ × W
  pub received : W → Bytes
  pub write-ok :
      (w after : W) (slices : List Bytes) (n : ℕ)
      → write_vectored w slices ≡ (ok n, after)
      → (n ≤ length (all_bytes slices)) × (received after ≡ received w ++ take n (all_bytes slices))
  pub write-err :
      (w after : W) (slices : List Bytes) (e : WriteError)
      → write_vectored w slices ≡ (err e, after)
      → received after ≡ received w
