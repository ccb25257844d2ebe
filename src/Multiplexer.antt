-- ===== src/Multiplexer.antt =====
-- ferrotunnel-core/src/stream/multiplexer.rs: the multiplexer of virtual streams. The channels of the
-- `kanal` package are named by a number each; `Answer` holds what they, and the cache's lock, answer
-- during one call. A call is one step: an `await` on a full channel ends when the channel answers.
pub mod Ids
pub mod Routing
pub mod Reopen
mod Checks
use ferrotunnel.Base.{
  ℕ, ◌+◌, List, [], ◌∷◌, Option, none, some, Bool, true, false, if◌then◌else◌, ◌==◌, nat_key,
  Result, ok, err, is_some,
}
use ferrotunnel.Base.Maps.{DashMap}
use ferrotunnel.Base.Words.{checked_add32}
use ferrotunnel.Frame.{
  Frame, OpenStreamFrame, StreamPriority, Protocol, data_frame, handshake, handshake_ack, register,
  register_ack, open_stream, stream_ack, close_stream, heartbeat, heartbeat_ack, error_frame,
  plugin_data,
}

-- A channel, by its sending and its receiving end.
abbrev pub Channel : Type 0
Channel = ℕ

pub record Multiplexer (S P : Type 0) : Type 0 where
  pub streams : S
  pub stream_priorities : P
  pub last_sender : Option (ℕ × Channel)
  pub next_stream_id : ℕ

pub data TunnelError : Type 0 where
  stream_ids_exhausted broken_pipe timed_out : TunnelError

-- What a call hands on: frames to the channel of a stream or to the wire, and streams to the
-- acceptor. A send that fails hands nothing on.
pub data Effect : Type 0 where
  deliver : Channel → Frame → Effect
  accept : (stream_id : ℕ) → Channel → StreamPriority → Protocol → Effect
  transmit : StreamPriority → Frame → Effect

pub record Answer : Type 0 where
  -- The channel that `bounded_async` makes.
  pub made : Channel
  -- Whether `try_lock` on the cache succeeds, when it is read and when it is written.
  pub reads_cache : Bool
  pub writes_cache : Bool
  -- Whether the receiving end is still there: of the stream, of the acceptor, of the wire.
  pub stream_open : Bool
  pub acceptor_open : Bool
  pub wire : Result TunnelError (Unit {0})

abbrev option_or : {A : Type 0} → Option A → A → A
option_or none d = d
option_or (some a) d = a

module _ {S P : Type 0} (sm : DashMap ℕ Channel S) (pm : DashMap ℕ StreamPriority P) where
  abbrev pub Mux : Type 0
  Mux = Multiplexer S P

  -- `Multiplexer::new`.
  unfoldable pub new : Bool → Mux
  new is_client = record {
    streams = sm.empty;
    stream_priorities = pm.empty;
    last_sender = none;
    next_stream_id = if is_client then 1 else 2;
  }

  unfoldable pub priority_for_frame : Frame → P → StreamPriority
  priority_for_frame (data_frame stream_id _ _) priorities =
      option_or (pm.get priorities stream_id) StreamPriority.normal
  priority_for_frame (heartbeat _) priorities = StreamPriority.critical
  priority_for_frame (handshake_ack _ _ _ _) priorities = StreamPriority.critical
  priority_for_frame (close_stream stream_id _) priorities =
      option_or (pm.get priorities stream_id) StreamPriority.normal
  priority_for_frame _ priorities = StreamPriority.normal

  pub allocate_stream_id : Mux → Result TunnelError (ℕ × Mux)
  allocate_stream_id m = elim (checked_add32 m.next_stream_id 2) [
    | none ↦ err stream_ids_exhausted
    | some next ↦ ok (m.next_stream_id, record m { next_stream_id = next })
  ]

  -- The frame as it goes to the wire channel.
  unfoldable pub send_frame : Mux → Frame → Answer → Result TunnelError (Unit {0}) × List Effect
  unfolding priority_for_frame
  send_frame m frame a = elim a.wire [
    | err e ↦ (err e, [])
    | ok _ ↦ (ok tt, transmit (priority_for_frame frame m.stream_priorities) frame ∷ [])
  ]

  abbrev cached_sender : Mux → ℕ → Answer → Option Channel
  cached_sender m stream_id a =
      if a.reads_cache
      then elim m.last_sender [
        | none ↦ none
        | some (cached_id, tx) ↦ if cached_id == stream_id then some tx else none
      ]
      else none

  -- The sender for a stream, and the multiplexer with its cache as the lookup leaves it.
  abbrev find_sender : Mux → ℕ → Answer → Option Channel × Mux
  find_sender m stream_id a = elim (cached_sender m stream_id a) [
    | some tx ↦ (some tx, m)
    | none ↦ elim (sm.get m.streams stream_id) [
      | none ↦ (none, m)
      | some tx ↦
          (some tx, if a.writes_cache then record m { last_sender = some (stream_id, tx) } else m)
    ]
  ]

  process_open : Mux → OpenStreamFrame → Answer → Mux × List Effect
  process_open m o a = elim (sm.get m.streams o.stream_id) [
    | some _ ↦ (m, [])
    | none ↦
        let entered = record m {
          streams = sm.insert m.streams o.stream_id a.made;
          stream_priorities = pm.insert m.stream_priorities o.stream_id o.priority;
        } in
        if a.acceptor_open
        then (entered, accept o.stream_id a.made o.priority o.protocol ∷ [])
        else (record entered { streams = sm.remove entered.streams o.stream_id }, [])
  ]

  process_data : Mux → ℕ → Frame → Answer → Mux × List Effect
  process_data m stream_id frame a =
      let (sender, m') = find_sender m stream_id a in
      elim sender [
        | none ↦ (m', [])
        | some tx ↦
            if a.stream_open
            then (m', deliver tx frame ∷ [])
            else (record m' { streams = sm.remove m'.streams stream_id }, [])
      ]

  process_close : Mux → ℕ → Frame → Answer → Mux × List Effect
  process_close m stream_id frame a =
      let (sender, m') = find_sender m stream_id a in
      (
        record m' {
          streams = sm.remove m'.streams stream_id;
          stream_priorities = pm.remove m'.stream_priorities stream_id;
        },
        elim sender [ none ↦ [] | some tx ↦ if a.stream_open then deliver tx frame ∷ [] else [] ],
      )

  unfoldable pub process_frame : Mux → Frame → Answer → Mux × List Effect
  unfolding process_open process_data process_close
  process_frame m (open_stream o) a = process_open m o a
  process_frame m (data_frame stream_id bytes eos) a =
      process_data m stream_id (data_frame stream_id bytes eos) a
  process_frame m (close_stream stream_id reason) a =
      process_close m stream_id (close_stream stream_id reason) a
  process_frame m _ a = (m, [])

  -- The stream that a successful call returns is the channel `made` under the allocated id.
  pub open_stream_with_priority :
      Mux → Protocol → StreamPriority → Answer → Result TunnelError ℕ × Mux × List Effect
  open_stream_with_priority m protocol priority a = elim (checked_add32 m.next_stream_id 2) [
    | none ↦ (err stream_ids_exhausted, m, [])
    | some next ↦
        let stream_id = m.next_stream_id in
        let entered = record m {
          next_stream_id = next;
          streams = sm.insert m.streams stream_id a.made;
          stream_priorities = pm.insert m.stream_priorities stream_id priority;
        } in
        let request = open_stream (record {
          stream_id = stream_id;
          protocol = protocol;
          headers = [];
          body_hint = none;
          priority = priority;
        }) in
        elim a.wire [
          | err e ↦ (err e, entered, [])
          | ok _ ↦ (ok stream_id, entered, transmit priority request ∷ [])
        ]
  ]
