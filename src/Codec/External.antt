-- ===== src/Codec/External.antt =====
-- The `bincode_next` package, which the codec calls: encoding, and decoding with a limit on the
-- allocation that it claims. The law is its documented round trip: what `encode_to_vec` wrote,
-- `decode_from_slice` reads back whole if the limit covers what the frame claims.
use ferrotunnel.Base.{ℕ, ◌≤◌, ◌≡◌, Option, some, length}
use ferrotunnel.Frame.{Bytes, Frame}

pub record Bincode : Type 0 where
  pub encode : Frame → Option Bytes
  pub decode : ℕ → Bytes → Option (Frame × ℕ)
  pub claim : Frame → ℕ
  pub decode-encode :
      (f : Frame) (out : Bytes) (limit : ℕ)
      → encode f ≡ some out
      → claim f ≤ limit
      → decode limit out ≡ some (f, length out)
