-- ===== src/Codec/Progress.antt =====
-- What one call of `decode` does to the buffer, on any bytes.
use ferrotunnel.Base.{
  ℕ, ◌+◌, ◌≤◌, ◌<◌, ◌≡◌, refl, ap, arith, [], ◌∷◌, ◌++◌, length, take, drop, get_or-append,
  take-append_le, drop-append_le, length-append, length-drop, length-take, none, some, ok, ◌≢◌,
}
use ferrotunnel.Base.Words.{u32_at}
use ferrotunnel.Frame.{Bytes, Frame}
use ferrotunnel.Validation.{validate_frame}
use ferrotunnel.Validation.Sound.{Fits, validate_frame-iff-Fits}
use ferrotunnel.Codec.{TunnelCodec, decode, decode_payload, decode_data, decode_control, encode}
use ferrotunnel.Codec.External.{Bincode}
use ferrotunnel.Codec.RoundTrip.{encode-Encoded, IsSendable}
use ferrotunnel.Codec.Wire.{IsCodec, length-wire, u32_at-put_u32}

pub decode_empty : (b : Bincode) (c : TunnelCodec) → decode b c [] ≡ (ok none, [])
unfolding decode
decode_empty b c = refl

pub u32_at-append : (xs ys : Bytes) → 4 ≤ length xs → u32_at (xs ++ ys) 0 ≡ u32_at xs 0
unfolding u32_at
u32_at-append xs ys h = ground (
  arith,
  get_or-append xs ys 0 0,
  get_or-append xs ys 1 0,
  get_or-append xs ys 2 0,
  get_or-append xs ys 3 0,
)

pub decode_payload-ne-none :
    (b : Bincode) (c : TunnelCodec) (bytes : Bytes) → decode_payload b c bytes ≢ ok none
unfolding decode_payload decode_data decode_control
decode_payload-ne-none b c bytes = ground arith

module _ (b : Bincode) (c : TunnelCodec) where
  -- `decode` waits for more bytes only without touching the buffer.
  pub decode-none : (src rest : Bytes) → decode b c src ≡ (ok none, rest) → rest ≡ src
  unfolding decode
  decode-none src rest e =
      ground (arith, decode_payload-ne-none b c (drop 4 (take (4 + u32_at src 0) src)))

  -- A decoded frame takes its length field, which is within the limit, and no more.
  pub decode-some :
      (src rest : Bytes) (f : Frame)
      → decode b c src ≡ (ok (some f), rest)
      → let n = 4 + u32_at src 0 in
        (rest ≡ drop n src)
        × (5 ≤ n)
        × (n ≤ 4 + c.max_frame_size)
        × (n ≤ length src)
        × (decode_payload b c (drop 4 (take n src)) ≡ ok (some f))
  unfolding decode
  decode-some src rest f e = ground arith

  pub length-decode_some :
      (src rest : Bytes) (f : Frame)
      → decode b c src ≡ (ok (some f), rest)
      → length rest < length src
  length-decode_some src rest f e =
      let s = decode-some src rest f e in
      omega (arith, s, ap length s.0, length-drop (4 + u32_at src 0) src)

  -- Bytes that arrive behind a whole frame do not change how it decodes.
  pub decode-append :
      (xs ys rest : Bytes) (f : Frame)
      → decode b c xs ≡ (ok (some f), rest)
      → decode b c (xs ++ ys) ≡ (ok (some f), rest ++ ys)
  unfolding decode
  decode-append xs ys rest f e = ground (
    arith,
    u32_at-append xs ys,
    length-append xs ys,
    take-append_le (4 + u32_at xs 0) xs ys,
    drop-append_le (4 + u32_at xs 0) xs ys,
  )

  -- A proper part of a frame that `encode` wrote decodes to nothing yet, and stays in the buffer.
  -- The codec is within the frame ceiling, and the frame one that its receiver accepts.
  pub decode_partial :
      (f : Frame) (front : Bytes) (x : ℕ) (back : Bytes)
      → IsCodec c
      → IsSendable b c f
      → encode b c f [] ≡ ok (front ++ x ∷ back)
      → decode b c front ≡ (ok none, front)
  unfolding decode
  decode_partial f front x back hc h e =
      let w = encode-Encoded b c f [] _ hc h e in
      ground (
        arith,
        w.written,
        w.fits,
        u32_at-append front (x ∷ back),
        length-append front (x ∷ back),
        length-wire w.payload,
        u32_at-put_u32 (length w.payload) w.payload,
      )

  payload_valid :
      (bytes : Bytes) (f : Frame)
      → length bytes ≤ c.max_frame_size
      → c.max_frame_size ≤ c.validation.max_payload_bytes
      → decode_payload b c bytes ≡ ok (some f)
      → validate_frame f c.validation ≡ ok tt
  unfolding decode_payload decode_data decode_control validate_frame
  payload_valid bytes f h hp e = ground (arith, length-drop 1 bytes, length-drop 5 (drop 1 bytes))

  decode_payload-Fits :
      (bytes : Bytes) (f : Frame)
      → length bytes ≤ c.max_frame_size
      → c.max_frame_size ≤ c.validation.max_payload_bytes
      → decode_payload b c bytes ≡ ok (some f)
      → Fits c.validation f
  decode_payload-Fits bytes f h hp e =
      (validate_frame-iff-Fits f c.validation).0 (payload_valid bytes f h hp e)

  -- Every frame that `decode` returns respects the receiver's limits: control frames by the
  -- validation, data frames by the length field. The codec's payload limit is not below its frame
  -- limit, as both constructors set it.
  pub decode-Fits :
      (src rest : Bytes) (f : Frame)
      → c.max_frame_size ≤ c.validation.max_payload_bytes
      → decode b c src ≡ (ok (some f), rest)
      → Fits c.validation f
  decode-Fits src rest f hp e =
      let s = decode-some src rest f e in
      let n = 4 + u32_at src 0 in
      decode_payload-Fits (drop 4 (take n src)) f
        (omega (arith, s, length-drop 4 (take n src), length-take n src)) hp s.4
