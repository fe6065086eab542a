-- ===== src/App/Sender/Delivery.antt =====
-- Who gets the answers of the server, and what the clients read in them.
use dungeon_crawler.Base.{
  Option-cases, find, contains-find, ℕ, ◌≡◌, refl, ap, ◌∙◌, inl, inr, some, [], ◌∷◌, arith,
}
use dungeon_crawler.Types.MessageUtils.Packing.{IsMessage}
use dungeon_crawler.Frame.{ByteBuffer}
use dungeon_crawler.App.Router.{Message}
use dungeon_crawler.App.Sessions.{
  Session, SessionRegistry, find_session_by_session_id, find_session_by_player_id,
}
use dungeon_crawler.App.Sessions.Linked.{IsLinked}
use dungeon_crawler.Lobby.Manager.{Response}
use dungeon_crawler.Wire.{Cbor}
use dungeon_crawler.Wire.Laws.{IsDocumented}
use dungeon_crawler.Wire.Message.{deserialize_buffer_to_message}
use dungeon_crawler.Wire.Messages.{AreArgs, deserialize-serialize_message}
use dungeon_crawler.App.Sender.{
  lobby_response, player_of_response, get_session_for_event, message_of_response, reply_message,
  send_response_impl, send_message_to, send_response,
}

-- Each session stands under its own id.
abbrev pub IsKeyed : SessionRegistry → Type 0
IsKeyed r = (sid : ℕ) (s : Session) → find sid r.sessions ≡ some s → s.session_id ≡ sid

message_of_response-IsMessage :
    (e : Response) (m : Message) → message_of_response e ≡ some m → IsMessage m.type
unfolding message_of_response
message_of_response-IsMessage e m h = ground (arith, h)

-- The session of a player who is bound to one
bound_session :
    (pid sid : ℕ) (r : SessionRegistry)
    → IsLinked r
    → IsKeyed r
    → find pid r.player_to_session ≡ some sid
    → (s : Session) × (find_session_by_player_id pid r ≡ some s) × (s.session_id ≡ sid)
unfolding find_session_by_player_id find_session_by_session_id
bound_session pid sid r v keyed bound =
    let there =
      v.present sid
        (ground (arith, (v.inverse pid sid).0 bound, contains-find sid r.session_to_player)) in
    elim (Option-cases (find sid r.sessions)) [
      | inl e ↦ absurd (ground (arith, e, there, contains-find sid r.sessions))
      | inr (s, e) ↦ (s, rw bound e, keyed sid s e)
    ]

module _ (c : Cbor) (laws : IsDocumented c) where
  sent_message :
      (s : Session) (m : Message)
      → IsMessage m.type
      → AreArgs m.args
      → (b : ByteBuffer) × (send_message_to c (some s) (some m) ≡ (s.session_id, b) ∷ [])
        × (deserialize_buffer_to_message c b ≡ some m)
  unfolding send_message_to send_response_impl
  sent_message s m known args =
      let (b, e, d) = deserialize-serialize_message c laws m.type m.args known args in
      (b, rw e refl, d)

  -- If the event that answers a player's request to the lobby has a message, then, for a player who is bound to a session,
  -- exactly one message is sent: it goes to that session and to no other, and the client that deserializes it reads the
  -- event's message with its arguments. Libcbor does what it documents, the two maps of the registry are inverse, and
  -- each session stands under its own id.
  pub send_response_lem :
      (e : Response) (m : Message) (sid : ℕ) (r : SessionRegistry)
      → IsLinked r
      → IsKeyed r
      → find (player_of_response e) r.player_to_session ≡ some sid
      → message_of_response e ≡ some m
      → AreArgs m.args
      → (b : ByteBuffer) × (send_response c (lobby_response e) r ≡ (sid, b) ∷ [])
        × (deserialize_buffer_to_message c b ≡ some m)
  unfolding send_response get_session_for_event reply_message
  send_response_lem e m sid r v keyed bound has args =
      let (s, found_it, id) = bound_session (player_of_response e) sid r v keyed bound in
      let (b, sends, reads) = sent_message s m (message_of_response-IsMessage e m has) args in
      (b, rw has (rw found_it (sends ∙ ap (λ k. (k, b) ∷ []) id)), reads)
