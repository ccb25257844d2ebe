-- ===== src/Server/Messages.antt =====
-- The message loop of ferrotunnel-core/src/tunnel/server.rs.
use ferrotunnel.Base.{
  ℕ, ◌≡◌, ◌≢◌, ◌⊎◌, refl, arith, subst, sym, List, [], ◌∷◌, Option, none, some, Bool, true, false,
  is_some, Result, ok, err, nat_key, bytes_key, inl, inr, if◌then◌else◌, eqb_iff,
}
use ferrotunnel.Base.Maps.{DashMap}
use ferrotunnel.Frame.{
  Text, Uuid, Frame, OpenStreamFrame, StreamPriority, open_stream, data_frame, close_stream,
  heartbeat,
}
use ferrotunnel.Session.{Session, SessionStore, tunnel_id_already_exists, add, touch, remove}
use ferrotunnel.Session.Consistent.{IsConsistent, touch-IsConsistent, remove-IsConsistent}
use ferrotunnel.Multiplexer.{Channel, transmit, send_frame, priority_for_frame}
use ferrotunnel.Server.{
  Message, io, Store, Mux, Served, touch_all, touch_or_same, route, limit, process_message,
  process_messages, touched_frame, arrived_message, limiter_of, and_then, rate_limited,
}

module _ {Shared Limiter S I M P : Type 0} (sm : DashMap Uuid (Session Shared Limiter) S)
    (im : DashMap Text Uuid I) (streams : DashMap ℕ Channel M)
    (priorities : DashMap ℕ StreamPriority P) where
  touch-cases-IsConsistent :
      (st : Store sm im streams priorities) (id : Uuid) (now : ℕ) (r : Option (SessionStore S I))
      → IsConsistent sm im st
      → touch sm im st id now ≡ r
      → IsConsistent sm im (elim r [ none ↦ st | some after ↦ after ])
  touch-cases-IsConsistent st id now none v e = v
  touch-cases-IsConsistent st id now (some after) v e = touch-IsConsistent sm im st after id now v e

  touch_all-IsConsistent :
      (st : Store sm im streams priorities) (id : Uuid) (times : List ℕ)
      → IsConsistent sm im st
      → IsConsistent sm im (touch_all sm im streams priorities st id times)
  unfolding touch_all
  touch_all-IsConsistent st id [] v = v
  touch_all-IsConsistent st id (now ∷ times) v =
      touch_all-IsConsistent (touch_or_same sm im streams priorities st id now) id times
        (touch-cases-IsConsistent st id now (touch sm im st id now) v refl)

  if-IsConsistent :
      (b : Bool) (x y : SessionStore S I)
      → IsConsistent sm im x
      → IsConsistent sm im y
      → IsConsistent sm im (if b then x else y)
  if-IsConsistent true x y v w = v
  if-IsConsistent false x y v w = w

  -- The multiplexer's part does not touch the store.
  route_store :
      (st : Store sm im streams priorities) (m : Mux sm im streams priorities) (f : Frame)
      (msg : Message)
      → (route sm im streams priorities st m f msg).1 ≡ st
  unfolding route
  route_store st m (heartbeat t) msg = refl
  route_store st m f msg = refl

  limit_store :
      (id : Uuid) (st : Store sm im streams priorities) (m : Mux sm im streams priorities)
      (f : Frame) (msg : Message)
      → ((limit sm im streams priorities id st m f msg).1 ≡ st)
        ⊎ ((limit sm im streams priorities id st m f msg).1
            ≡ touch_all sm im streams priorities st id msg.touched)
  unfolding limit
  limit_store id st m (open_stream o) msg = ground (arith, route_store st m (open_stream o) msg)
  limit_store id st m (data_frame i bytes eos) msg = ground (
    arith,
    route_store st m (data_frame i bytes eos) msg,
    route_store (touch_all sm im streams priorities st id msg.touched) m (data_frame i bytes eos)
        msg,
  )
  limit_store id st m f msg = inl (route_store st m f msg)

  limit-IsConsistent :
      (id : Uuid) (st : Store sm im streams priorities) (m : Mux sm im streams priorities)
      (f : Frame) (msg : Message)
      → IsConsistent sm im st
      → IsConsistent sm im (limit sm im streams priorities id st m f msg).1
  limit-IsConsistent id st m f msg v = elim (limit_store id st m f msg) [
    | inl same ↦ subst (IsConsistent sm im) (sym same) v
    | inr touched ↦
        subst (IsConsistent sm im) (sym touched) (touch_all-IsConsistent st id msg.touched v)
  ]

  touched_frame-IsConsistent :
      (id : Uuid) (st : Store sm im streams priorities) (m : Mux sm im streams priorities)
      (f : Frame) (msg : Message) (r : Option (SessionStore S I))
      → IsConsistent sm im st
      → touch sm im st id msg.now ≡ r
      → IsConsistent sm im (touched_frame sm im streams priorities id st m f msg r).1
  unfolding touched_frame
  touched_frame-IsConsistent id st m f msg none v e = v
  touched_frame-IsConsistent id st m f msg (some after) v e =
      let w = touch-IsConsistent sm im st after id msg.now v e in
      either (is_some (limiter_of sm im streams priorities after id))
    where
      either :
          (b : Bool)
          → IsConsistent sm im
              (if b
                then limit sm im streams priorities id after m f msg
                else route sm im streams priorities after m f msg).1
      either true =
          limit-IsConsistent id after m f msg (touch-IsConsistent sm im st after id msg.now v e)
      either false =
          subst (IsConsistent sm im) (sym (route_store after m f msg))
            (touch-IsConsistent sm im st after id msg.now v e)

  arrived-IsConsistent :
      (id : Uuid) (st : Store sm im streams priorities) (m : Mux sm im streams priorities)
      (msg : Message) (r : Result (Unit {0}) Frame)
      → IsConsistent sm im st
      → IsConsistent sm im (arrived_message sm im streams priorities id st m msg r).1
  unfolding arrived_message
  arrived-IsConsistent id st m msg (err _) v = v
  arrived-IsConsistent id st m msg (ok f) v =
      touched_frame-IsConsistent id st m f msg (touch sm im st id msg.now) v refl

  and_then-IsConsistent :
      (x y : Served sm im streams priorities)
      → IsConsistent sm im x.1
      → IsConsistent sm im y.1
      → IsConsistent sm im (and_then sm im streams priorities x y).1
  unfolding and_then
  and_then-IsConsistent (err e, after, mux, effects) y v w = v
  and_then-IsConsistent (ok _, after, mux, effects) (result, last, last_mux, more) v w = w

  -- Whatever arrives and however the connection ends, its message loop keeps the session store's two
  -- maps in agreement. They agree at first.
  pub process_messages-IsConsistent :
      (id : Uuid) (st : Store sm im streams priorities) (m : Mux sm im streams priorities)
      (messages : List Message)
      → IsConsistent sm im st
      → IsConsistent sm im (process_messages sm im streams priorities id st m messages).1
  unfolding process_messages
  process_messages-IsConsistent id st m [] v = remove-IsConsistent sm im st v id
  process_messages-IsConsistent id st m (msg ∷ messages) v =
      let served = process_message sm im streams priorities id st m msg in
      let w = arrived-IsConsistent id st m msg msg.arrived v in
      and_then-IsConsistent served
        (process_messages sm im streams priorities id served.1 served.2 messages) w
        (process_messages-IsConsistent id served.1 served.2 messages w)

  and_then-ok :
      (x y : Served sm im streams priorities)
      → (and_then sm im streams priorities x y).0 ≡ ok tt
      → (y.0 ≡ ok tt) × ((and_then sm im streams priorities x y).1 ≡ y.1)
  unfolding and_then
  and_then-ok (err e, after, mux, effects) y h = absurd (ground arith)
  and_then-ok (ok _, after, mux, effects) (result, last, last_mux, more) h = (h, refl)

  -- A connection whose stream ends without an error leaves no session behind: its id is no longer
  -- filed.
  pub process_messages-withdraws :
      (id : Uuid) (st : Store sm im streams priorities) (m : Mux sm im streams priorities)
      (messages : List Message)
      → (process_messages sm im streams priorities id st m messages).0 ≡ ok tt
      → sm.get (process_messages sm im streams priorities id st m messages).1.sessions id ≡ none
  unfolding process_messages remove
  process_messages-withdraws id st m [] h = ground (arith, sm.get-remove st.sessions id id)
  process_messages-withdraws id st m (msg ∷ messages) h =
      let served = process_message sm im streams priorities id st m msg in
      let later = process_messages sm im streams priorities id served.1 served.2 messages in
      let (done, same) = and_then-ok served later h in
      subst (λ s. sm.get s.sessions id ≡ none) (sym same)
        (process_messages-withdraws id served.1 served.2 messages done)

  -- A connection that ends with an error of its stream leaves its session in the store as it is, and
  -- with it the claim on the tunnel id: another session that asks for this tunnel id is refused. The
  -- session was filed, and the store's maps agree.
  pub failed_stream_keeps_claim :
      (id : Uuid) (st : Store sm im streams priorities) (m : Mux sm im streams priorities)
      (msg : Message) (messages : List Message) (s retry : Session Shared Limiter)
      → IsConsistent sm im st
      → msg.arrived ≡ err tt
      → sm.get st.sessions id ≡ some s
      → retry.tunnel_id ≡ s.tunnel_id
      → retry.id ≢ id
      → (process_messages sm im streams priorities id st m (msg ∷ messages) ≡ (err io, st, m, []))
        × ((add sm im st retry).0 ≡ err (tunnel_id_already_exists retry.tunnel_id))
  unfolding process_messages arrived_message and_then add
  failed_stream_keeps_claim id st m msg messages s retry v e found same other =
      (ground arith, ground (arith, v.filed id s found, eqb_iff id retry.id))

  -- A data frame over the byte budget is delayed, not dropped: the result, what is handed on, and the
  -- connection's multiplexer are what they would be within the budget.
  pub throttled_data_arrives :
      (id : Uuid) (st : Store sm im streams priorities) (m : Mux sm im streams priorities)
      (msg : Message) (stream_id : ℕ) (bytes : List ℕ) (eos : Bool)
      → msg.arrived ≡ ok (data_frame stream_id bytes eos)
      → let over =
          process_message sm im streams priorities id st m (record msg { data_allowed = false }) in
        let within =
          process_message sm im streams priorities id st m (record msg { data_allowed = true }) in
        (over.0 ≡ within.0) × (over.2 ≡ within.2) × (over.3 ≡ within.3)
  unfolding arrived_message touched_frame limit route
  throttled_data_arrives id st m msg stream_id bytes eos e = ground arith

  -- A stream that may not be opened never reaches the multiplexer: with a limiter in the session, a
  -- denied OpenStream leaves the multiplexer as it is, the loop goes on, and all that is sent is a
  -- CloseStream for that stream.
  pub denied_open_closes :
      (id : Uuid) (st after : Store sm im streams priorities) (m : Mux sm im streams priorities)
      (msg : Message) (o : OpenStreamFrame)
      → msg.arrived ≡ ok (open_stream o)
      → touch sm im st id msg.now ≡ some after
      → is_some (limiter_of sm im streams priorities after id) ≡ true
      → msg.open_allowed ≡ false
      → msg.answer.wire ≡ ok tt
      → process_message sm im streams priorities id st m msg ≡ (
        ok tt,
        after,
        m,
        transmit
              (priority_for_frame streams priorities
                (close_stream o.stream_id rate_limited)
                m.stream_priorities)
              (close_stream o.stream_id rate_limited)
            ∷ [],
      )
  unfolding arrived_message touched_frame limit send_frame
  denied_open_closes id st after m msg o e et el eo ew = ground arith
