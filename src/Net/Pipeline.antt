-- ===== src/Net/Pipeline.antt =====
-- From the client to the server's router: messages that are serialized (src/common/wire/serder.cpp), framed
-- (frame_codec.h), received by a session in any pieces (session.cpp), and deserialized by the router (msg_router.cpp).
use dungeon_crawler.Base.{
  ◌>>=◌, All, ℕ, ◌≡◌, refl, sym, ap, ◌∙◌, Option, some, List, [], ◌∷◌, map, append-nil, arith,
}
use dungeon_crawler.Frame.{ByteBuffer, encode_frame, extract_frames}
use dungeon_crawler.Frame.RoundTrip.{
  IsSmall, encode_all, length-encode_frame, extract_frames-encode_all,
}
use dungeon_crawler.App.Router.{Message, Event, on_message}
use dungeon_crawler.App.Sessions.{SessionRegistry}
use dungeon_crawler.Types.MessageUtils.Packing.{IsMessage}
use dungeon_crawler.Wire.{Cbor}
use dungeon_crawler.Wire.Laws.{IsDocumented}
use dungeon_crawler.Wire.Message.{serialize_message_to_buffer, deserialize_buffer_to_message}
use dungeon_crawler.Wire.Messages.{AreArgs, deserialize-serialize_message}
use dungeon_crawler.Net.Session.{SessionEvent, SessionState, Input, Run}
use dungeon_crawler.Net.Session.Reading.{bytes_of, payloads_of, Run-payloads}

module _ (c : Cbor) where
  -- `OnRawMessage`: the events of the payloads that a session has published
  unfoldable pub on_raw_message : ℕ → SessionRegistry → ByteBuffer → Option Event
  on_raw_message sid r payload = do
    message ← deserialize_buffer_to_message c payload
    on_message sid message r

  -- The bytes of the client's messages, each one serialized, which the codec takes.
  abbrev pub Serialized : List Message → List ByteBuffer → Type 0
  Serialized [] [] = Unit
  Serialized (m ∷ ms) (b ∷ bs) =
      (serialize_message_to_buffer c m.type m.args ≡ some b) × IsSmall b × Serialized ms bs
  Serialized _ _ = ⊥

abbrev pub AreMessages : List Message → Type 0
AreMessages = All (λ m. IsMessage m.type × AreArgs m.args)

Serialized-IsSmall :
    (c : Cbor) (ms : List Message) (bs : List ByteBuffer) → Serialized c ms bs → All IsSmall bs
Serialized-IsSmall c [] [] h = tt
Serialized-IsSmall c [] (b ∷ bs) h = absurd h
Serialized-IsSmall c (m ∷ ms) [] h = absurd h
Serialized-IsSmall c (m ∷ ms) (b ∷ bs) h = (h.1, Serialized-IsSmall c ms bs h.2)

module _ (c : Cbor) (laws : IsDocumented c) where
  pub on_raw_message_lem :
      (sid : ℕ) (r : SessionRegistry) (m : Message) (b : ByteBuffer)
      → IsMessage m.type
      → AreArgs m.args
      → serialize_message_to_buffer c m.type m.args ≡ some b
      → on_raw_message c sid r b ≡ on_message sid m r
  unfolding on_raw_message
  on_raw_message_lem sid r m b known args e =
      let (b', e', d) = deserialize-serialize_message c laws m.type m.args known args in
      let same : b' ≡ b = ground (arith, e, e') in rw (← same) (rw d refl)

  events_lem :
      (sid : ℕ) (r : SessionRegistry) (ms : List Message) (bs : List ByteBuffer)
      → AreMessages ms
      → Serialized c ms bs
      → map (on_raw_message c sid r) bs ≡ map (λ m. on_message sid m r) ms
  events_lem sid r [] [] known h = refl
  events_lem sid r [] (b ∷ bs) known h = absurd h
  events_lem sid r (m ∷ ms) [] known h = absurd h
  events_lem sid r (m ∷ ms) (b ∷ bs) known h =
      cc (on_raw_message_lem sid r m b known.0.0 known.0.1 h.0, events_lem sid r ms bs known.1 h.2)

  -- A client serializes messages of the protocol and frames them, and a session receives these bytes, in whatever
  -- pieces, together with what else happens to it. Then the router has made of the session's payloads the events that
  -- the messages stand for, in their order, and no byte is left in the session's buffer. Libcbor does what it documents,
  -- and no serialized message exceeds the codec's limit.
  pub pipeline_lem :
      (sid : ℕ) (r : SessionRegistry) (ms : List Message) (bs : List ByteBuffer)
      (inputs : List Input) (events : List SessionEvent) (s : SessionState)
      → AreMessages ms
      → Serialized c ms bs
      → Run sid inputs events s
      → bytes_of inputs ≡ encode_all bs
      → (map (on_raw_message c sid r) (payloads_of events) ≡ map (λ m. on_message sid m r) ms)
        × (s.read_buffer ≡ [])
  pipeline_lem sid r ms bs inputs events s known h run sent_all =
      let read = Run-payloads sid inputs events s run in
      let framed =
        extract_frames-encode_all bs [] [] (encode_frame []) (Serialized-IsSmall c ms bs h)
          (omega arith) refl (omega (arith, length-encode_frame [] (omega arith))) in
      let both =
        sym read ∙ ap extract_frames (sent_all ∙ sym (append-nil (encode_all bs))) ∙ framed in
      let payloads : payloads_of events ≡ bs = ground (arith, both) in
      (
        ap (map (on_raw_message c sid r)) payloads ∙ events_lem sid r ms bs known h,
        ground (arith, both),
      )
