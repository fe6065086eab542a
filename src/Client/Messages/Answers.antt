-- ===== src/Client/Messages/Answers.antt =====
-- What the player is shown of the server's answers.
use dungeon_crawler.Client.Map.{render_game_state}
use dungeon_crawler.Client.Messages.{
  malformed, lobby_number, lobby_numbers, format_output, Shown, lines, unknown_app_message,
  lobby_not_created, join_success, join_not_made, lobby_was_created, lobby_list_was_created,
  show_message, show_parsed, show_either, route_message,
}
use dungeon_crawler.Wire.Snapshots.{IsSnapshot, deserialize-serialize_game_state}
use dungeon_crawler.Wire.Messages.{AreArgs}
use dungeon_crawler.Wire.Laws.{IsDocumented}
use dungeon_crawler.Lobby.Manager.{
  Response, lobby_created, lobby_creation_failed, joined, join_failed, lobbies_listed,
}
use dungeon_crawler.App.Sessions.Linked.{IsLinked}
use dungeon_crawler.App.Sessions.{SessionRegistry}
use dungeon_crawler.App.Sender.Delivery.{IsKeyed, send_response_lem}
use dungeon_crawler.App.Sender.{
  lobby_response, player_of_response, message_of_response, send_response,
}
use dungeon_crawler.Types.GameState.{DungeonSnapshot}
use dungeon_crawler.Base.{
  Option-cases, find, ℕ, ◌≡◌, refl, ◌∙◌, inl, inr, false, none, some, List, [], ◌∷◌, arith,
}
use dungeon_crawler.Frame.{ByteBuffer}
use dungeon_crawler.App.Router.{Message}
use dungeon_crawler.Wire.{
  View, uint, array, cbor_map, string, other, Cbor, elements_of, array_elements, buffer_to_cbor,
}
use dungeon_crawler.Wire.Message.{deserialize_buffer_to_message}
use dungeon_crawler.Wire.Snapshot.{serialize_game_state, is_map, deserialize_game_state}

-- What the player is to be shown of an answer of the lobby: of those to leaving, nothing that is known.
unfoldable pub shown_response : Response → Shown
shown_response (lobby_created pid lid) = lobby_was_created (lobby_number lid)
shown_response (lobby_creation_failed pid) = lobby_not_created
shown_response (joined pid) = join_success
shown_response (join_failed pid) = join_not_made
shown_response (lobbies_listed pid []) = lobby_list_was_created malformed
shown_response (lobbies_listed pid (lid ∷ lids)) =
    lobby_list_was_created (lobby_numbers (lid ∷ lids))
shown_response _ = unknown_app_message

show_response :
    (e : Response) (m : Message)
    → message_of_response e ≡ some m
    → show_message m.type m.args ≡ shown_response e
unfolding message_of_response shown_response show_message format_output
show_response (lobbies_listed pid []) m h = ground (arith, h)
show_response (lobbies_listed pid (lid ∷ lids)) m h = ground (arith, h)
show_response e m h = ground (arith, h)

module _ (c : Cbor) where
  array_no_map :
      (v : View c.Item) (items : List c.Item) → elements_of c v ≡ some items → is_map c v ≡ false
  unfolding elements_of is_map
  array_no_map (array xs) items h = refl
  array_no_map (uint w n) items h = absurd (cc h)
  array_no_map (cbor_map ps) items h = absurd (cc h)
  array_no_map (string d s) items h = absurd (cc h)
  array_no_map other items h = absurd (cc h)

  -- Bytes that are a message are no snapshot.
  message_no_snapshot :
      (b : ByteBuffer) (m : Message)
      → deserialize_buffer_to_message c b ≡ some m
      → deserialize_game_state c b ≡ none
  unfolding deserialize_buffer_to_message deserialize_game_state array_elements
  message_no_snapshot b m h = elim (Option-cases (buffer_to_cbor c b)) [
    | inl e ↦ rw e refl
    | inr (root, e) ↦ elim (Option-cases (elements_of c (c.view root))) [
      | inl f ↦ absurd (ground (arith, h, e, f))
      | inr (items, f) ↦ rw e (rw (array_no_map (c.view root) items f) refl)
    ]
  ]

  route_message-message :
      (b : ByteBuffer) (m : Message)
      → deserialize_buffer_to_message c b ≡ some m
      → route_message c b ≡ show_message m.type m.args
  unfolding route_message show_either show_parsed
  route_message-message b m h = rw (message_no_snapshot b m h) (rw h refl)

module _ (c : Cbor) (laws : IsDocumented c) where
  -- The answers of the lobby that have a message: exactly one message is sent, to the session of the player, and when it
  -- arrives, the player is shown the lobby's number, the list of lobbies, or the failure, whichever the answer says; an
  -- empty list is shown as malformed, and an answer to leaving as unknown. Libcbor does what it documents, the two maps
  -- of the registry are inverse, and each session stands under its own id.
  pub response_shown :
      (e : Response) (m : Message) (sid : ℕ) (r : SessionRegistry)
      → IsLinked r
      → IsKeyed r
      → find (player_of_response e) r.player_to_session ≡ some sid
      → message_of_response e ≡ some m
      → AreArgs m.args
      → (b : ByteBuffer) × (send_response c (lobby_response e) r ≡ (sid, b) ∷ [])
        × (route_message c b ≡ shown_response e)
  response_shown e m sid r v keyed bound has args =
      let (b, sends, reads) = send_response_lem c laws e m sid r v keyed bound has args in
      (b, sends, route_message-message c b m reads ∙ show_response e m has)

  -- The bytes of a snapshot whose numbers fit their fields are shown as its map. Libcbor does what it documents.
  pub snapshot_shown :
      (s : DungeonSnapshot)
      → IsSnapshot s
      → (b : ByteBuffer) × (serialize_game_state c s ≡ some b)
        × (route_message c b ≡ lines (render_game_state s))
  unfolding route_message show_either
  snapshot_shown s h =
      let (b, bytes, reads) = deserialize-serialize_game_state c laws s h in
      (b, bytes, rw reads refl)
