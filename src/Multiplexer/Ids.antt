-- ===== src/Multiplexer/Ids.antt =====
-- The ids of the streams that this side opens.
use mathlib.Core.Path.{subst}
use ferrotunnel.Base.{
  ℕ, ◌+◌, ◌%◌, ◌≤◌, ◌≡◌, refl, arith, List, [], ◌∷◌, Bool, true, false, if◌then◌else◌, Result, ok,
  err, nat_key,
}
use ferrotunnel.Base.Maps.{DashMap}
use ferrotunnel.Base.Words.{u32_max}
use ferrotunnel.Frame.{Frame, StreamPriority, Protocol, open_stream, data_frame, close_stream}
use ferrotunnel.Multiplexer.{
  Multiplexer, Channel, Answer, TunnelError, new, process_frame, process_open, process_data,
  process_close, open_stream_with_priority,
}

-- What the two sides of the multiplexer are asked: to open a stream, and to take a frame off the wire.
pub data Call : Type 0 where
  opens : Protocol → StreamPriority → Answer → Call
  receives : Frame → Answer → Call

-- Ids from `lo` on that rise, have the parity and fit 32 bits.
abbrev pub Ascending : ℕ → ℕ → List ℕ → Type 0
Ascending parity lo [] = Unit {0}
Ascending parity lo (id ∷ ids) =
    (lo ≤ id) × (id % 2 ≡ parity) × (id ≤ u32_max) × Ascending parity (id + 2) ids

Ascending-mono :
    (parity lo lo' : ℕ) (ids : List ℕ)
    → lo' ≤ lo
    → Ascending parity lo ids
    → Ascending parity lo' ids
Ascending-mono parity lo lo' [] h a = tt
Ascending-mono parity lo lo' (id ∷ ids) h a = (omega arith, a.1, a.2, a.3)

module _ {S P : Type 0} (sm : DashMap ℕ Channel S) (pm : DashMap ℕ StreamPriority P) where
  abbrev collect : Result TunnelError ℕ → List ℕ → List ℕ
  collect (ok id) ids = id ∷ ids
  collect (err e) ids = ids

  -- The ids of the streams that a run of calls opens, in order.
  pub opened_ids : Multiplexer S P → List Call → List ℕ
  opened_ids m [] = []
  opened_ids m (opens protocol priority a ∷ calls) =
      let (result, m', effects) = open_stream_with_priority sm pm m protocol priority a in
      collect result (opened_ids m' calls)
  opened_ids m (receives frame a ∷ calls) = opened_ids (process_frame sm pm m frame a).0 calls

  next-process_frame :
      (m : Multiplexer S P) (f : Frame) (a : Answer)
      → (process_frame sm pm m f a).0.next_stream_id ≡ m.next_stream_id
  unfolding process_frame process_open process_data process_close
  next-process_frame m (open_stream o) a = ground arith
  next-process_frame m (data_frame stream_id bytes eos) a = ground arith
  next-process_frame m (close_stream stream_id reason) a = ground arith
  next-process_frame m _ a = refl

  -- The next id stays, or it was given away and two are added.
  abbrev Advances : ℕ → Result TunnelError ℕ → ℕ → Type 0
  Advances lo (ok id) next = (id ≡ lo) × (next ≡ lo + 2) × (next ≤ u32_max)
  Advances lo (err e) next = (lo ≤ next) × (next % 2 ≡ lo % 2)

  open-Advances :
      (m : Multiplexer S P) (protocol : Protocol) (priority : StreamPriority) (a : Answer)
      → let r = open_stream_with_priority sm pm m protocol priority a in
        Advances m.next_stream_id r.0 r.1.next_stream_id
  unfolding open_stream_with_priority
  open-Advances m protocol priority a = ground arith

  collect-Ascending :
      (r : Result TunnelError ℕ) (parity lo next : ℕ) (ids : List ℕ)
      → lo % 2 ≡ parity
      → Advances lo r next
      → Ascending parity next ids
      → Ascending parity lo (collect r ids)
  collect-Ascending (ok id) parity lo next ids h (e, e', fits) rest = (
    omega arith,
    ground arith,
    omega arith,
    Ascending-mono parity next (id + 2) ids (omega arith) rest,
  )
  collect-Ascending (err e) parity lo next ids h (up, same) rest =
      Ascending-mono parity next lo ids up rest

  advanced_parity :
      (r : Result TunnelError ℕ) (parity lo next : ℕ)
      → lo % 2 ≡ parity
      → Advances lo r next
      → next % 2 ≡ parity
  advanced_parity (ok id) parity lo next h a = omega arith
  advanced_parity (err e) parity lo next h a = omega arith

  opened_ids-Ascending :
      (m : Multiplexer S P) (calls : List Call) (parity lo : ℕ)
      → m.next_stream_id ≡ lo
      → lo % 2 ≡ parity
      → Ascending parity lo (opened_ids m calls)
  unfolding opened_ids
  opened_ids-Ascending m [] parity lo e h = tt
  opened_ids-Ascending m (opens protocol priority a ∷ calls) parity lo e h =
      let r = open_stream_with_priority sm pm m protocol priority a in
      let step : Advances lo r.0 r.1.next_stream_id =
        subst (λ k. Advances k r.0 r.1.next_stream_id) e (open-Advances m protocol priority a) in
      collect-Ascending r.0 parity lo r.1.next_stream_id (opened_ids r.1 calls) h step (
        opened_ids-Ascending r.1 calls parity r.1.next_stream_id refl
          (advanced_parity r.0 parity lo r.1.next_stream_id h step))
  opened_ids-Ascending m (receives f a ∷ calls) parity lo e h =
      opened_ids-Ascending (process_frame sm pm m f a).0 calls parity lo
        (ground (arith, next-process_frame m f a)) h

  -- Whatever is received in between and however the sends end, the streams that one side opens have
  -- rising ids within 32 bits, odd on the client and even on the server: no id is given twice, and
  -- the two sides never give the same one.
  new-Ascending :
      (is_client : Bool) (calls : List Call)
      → Ascending (if is_client then 1 else 0) 1 (opened_ids (new sm pm is_client) calls)
  unfolding new
  new-Ascending true calls = opened_ids-Ascending (new sm pm true) calls 1 1 refl refl
  new-Ascending false calls =
      Ascending-mono 0 2 1 (opened_ids (new sm pm false) calls) (omega arith)
        (opened_ids-Ascending (new sm pm false) calls 0 2 refl refl)
