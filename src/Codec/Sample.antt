-- ===== src/Codec/Sample.antt =====
-- A small bincode, a codec and a frame on which the theorems are run.
use ferrotunnel.Base.{ℕ, ◌≤◌, ◌≡◌, arith, [], ◌∷◌, Option, none, some, true, length}
use ferrotunnel.Frame.{Bytes, Frame, heartbeat, data_frame}
use ferrotunnel.Validation.{default_validation_limits}
use ferrotunnel.Codec.{TunnelCodec}
use ferrotunnel.Codec.External.{Bincode}

-- A bincode that knows heartbeats of one byte.
abbrev pub toy_encode : Frame → Option Bytes
toy_encode (heartbeat t) = some (8 ∷ t ∷ [])
toy_encode _ = none

abbrev pub toy_decode : ℕ → Bytes → Option (Frame × ℕ)
toy_decode limit (x ∷ t ∷ []) = some (heartbeat t, 2)
toy_decode limit _ = none

pub toy_law :
    (f : Frame) (out : Bytes) (limit : ℕ)
    → toy_encode f ≡ some out
    → 0 ≤ limit
    → toy_decode limit out ≡ some (f, length out)
toy_law (heartbeat t) out limit e h = ground arith
toy_law _ out limit e h = absurd (ground arith)

abbrev pub toy : Bincode
toy = record { encode = toy_encode; decode = toy_decode; claim = λ f. 0; decode-encode = toy_law }

abbrev pub small : TunnelCodec
small = record { max_frame_size = 64; validation = default_validation_limits }

-- Stream 7, two bytes, end of stream.
abbrev pub hi_frame : Frame
hi_frame = data_frame 7 (104 ∷ 105 ∷ []) true

abbrev pub hi_bytes : Bytes
hi_bytes = 0 ∷ 0 ∷ 0 ∷ 8 ∷ 1 ∷ 0 ∷ 0 ∷ 0 ∷ 7 ∷ 1 ∷ 104 ∷ 105 ∷ []
