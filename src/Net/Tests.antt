-- ===== src/Net/Tests.antt =====
-- The theorems about connections, at a session that reads one message in two pieces and at a client that sends two.
use dungeon_crawler.Base.{
  ltb, leb, if◌then◌else◌, length, take, drop, ◌≤◌, ◌<◌, ◌≡◌, refl, ◌⊎◌, true, ◌&&◌, some, List, [],
  ◌∷◌, ◌++◌, map, arith,
}
use dungeon_crawler.Frame.RoundTrip.{encode_all}
use dungeon_crawler.Types.MessageUtils.{is_unknown_message, pack_message_type}
use dungeon_crawler.Frame.{ByteBuffer, max_message_size, load_u32, encode_frame, extract_frames}
use dungeon_crawler.Types.MessageType.{join, network_message}
use dungeon_crawler.Types.MessageUtils.Packing.{IsMessage}
use dungeon_crawler.App.Router.{Message, on_message}
use dungeon_crawler.App.Sessions.{SessionRegistry}
use dungeon_crawler.Wire.{cbor_to_message}
use dungeon_crawler.Wire.Toy.{toy, toy-IsDocumented}
use dungeon_crawler.Wire.Message.{
  add_arg_to_array, create_message_array, add_args, serialize_message_to_buffer,
}
use dungeon_crawler.Net.Session.{
  SessionEvent, Outcome, do_read, start, write_first, do_write, enqueue, send, process_messages,
  on_read, Input, received, handle_input, Run, started, then_handles,
}
use dungeon_crawler.Net.Session.Reading.{bytes_of, payloads_of, Run-payloads}
use dungeon_crawler.Net.Session.Writing.{Run-send}
use dungeon_crawler.Net.Session.Leaving.{departures, Run-departures}
use dungeon_crawler.Net.Client.{
  ClientState, max_queue_size, new_client, state_is_connected, is_connected, reset_state,
  close_socket, start_connect, on_resolved, read_more, on_connected, begin_write, write_next,
  queue_message, send_message, on_written, set_open, ClientInput, start_connect_called, resolved,
  connection_made, message_sent, message_written, socket_set, handle_client, Reached, fresh,
  then_happens,
}
use dungeon_crawler.Net.Client.Orderly.{IsOrderly}
use dungeon_crawler.Net.Client.Sole.{IsSole, IsCutOff, handle_client-IsSole}
use dungeon_crawler.Net.Client.Invariant.{Reached-IsOrderly}
use dungeon_crawler.Net.Client.Outbox.{outbox, send_message_lem, after_writes, after_writes_lem}
use dungeon_crawler.Net.Pipeline.{on_raw_message, Serialized, pipeline_lem}

-- A join with the player's id 9, as the library for tests serializes it
abbrev join_bytes : ByteBuffer
join_bytes = 1 ∷ 2 ∷ 0 ∷ 2 ∷ 2 ∷ 0 ∷ 9 ∷ []

abbrev first_piece : Input
first_piece = received (take 5 (encode_frame join_bytes))

abbrev second_piece : Input
second_piece = received (drop 5 (encode_frame join_bytes))

abbrev half_read : Outcome
half_read = handle_input first_piece (start 3).0

abbrev whole_read : Outcome
whole_read = handle_input second_piece half_read.0

abbrev reading_events : List SessionEvent
reading_events = ((start 3).1 ++ half_read.1) ++ whole_read.1

two_reads : Run 3 (first_piece ∷ second_piece ∷ []) reading_events whole_read.0
unfolding start do_read handle_input on_read process_messages extract_frames encode_frame load_u32
two_reads =
    then_handles (first_piece ∷ []) ((start 3).1 ++ half_read.1) half_read.0 second_piece
      (then_handles [] (start 3).1 (start 3).0 first_piece started (refl, omega arith))
      (refl, omega arith)

Run-payloads_example :
    extract_frames (bytes_of (first_piece ∷ second_piece ∷ []))
    ≡ some (payloads_of reading_events, whole_read.0.read_buffer)
Run-payloads_example =
    Run-payloads 3 (first_piece ∷ second_piece ∷ []) reading_events whole_read.0 two_reads

whole_read_connected : whole_read.0.connected ≡ true
unfolding start do_read handle_input on_read process_messages extract_frames encode_frame load_u32
whole_read_connected = refl

Run-send_example :
    (whole_read.0.write_queue ≡ [])
    × (send join_bytes whole_read.0 ≡ record whole_read.0 {
      write_queue = [];
      in_flight = whole_read.0.in_flight ++ (encode_frame join_bytes ∷ []);
    })
Run-send_example =
    Run-send 3 (first_piece ∷ second_piece ∷ []) reading_events whole_read.0 join_bytes two_reads
      whole_read_connected (omega arith)

Run-departures_example : departures reading_events ≡ (if whole_read.0.connected then 0 else 1)
Run-departures_example =
    Run-departures 3 (first_piece ∷ second_piece ∷ []) reading_events whole_read.0 two_reads

-- Two messages that are sent at once are written at the same time.
two_writes :
    (send join_bytes (send join_bytes (start 3).0)).in_flight
    ≡ encode_frame join_bytes ∷ encode_frame join_bytes ∷ []
unfolding start do_read send enqueue do_write write_first encode_frame
two_writes = refl

abbrev joining : Message
joining = record { type = network_message join; args = 9 ∷ [] }

join-IsMessage : IsMessage (network_message join)
join-IsMessage =
    (λ h. absurd (cc h), λ h. absurd (ground (arith, h)), λ h. absurd (cc h), λ h. absurd (cc h))

joining-Serialized : Serialized toy (joining ∷ []) (join_bytes ∷ [])
unfolding serialize_message_to_buffer create_message_array add_args add_arg_to_array
    pack_message_type cbor_to_message is_unknown_message
joining-Serialized = (refl, omega arith, tt)

join_sent : bytes_of (first_piece ∷ second_piece ∷ []) ≡ encode_all (join_bytes ∷ [])
unfolding encode_frame encode_all
join_sent = refl

abbrev no_sessions : SessionRegistry
no_sessions = record { sessions = []; player_to_session = []; session_to_player = [] }

pipeline_lem_example :
    (map (on_raw_message toy 3 no_sessions) (payloads_of reading_events)
      ≡ map (λ m. on_message 3 m no_sessions) (joining ∷ []))
    × (whole_read.0.read_buffer ≡ [])
pipeline_lem_example =
    pipeline_lem toy toy-IsDocumented 3 no_sessions (joining ∷ []) (join_bytes ∷ [])
      (first_piece ∷ second_piece ∷ []) reading_events whole_read.0
      ((join-IsMessage, (omega arith, tt)), tt) joining-Serialized two_reads join_sent

-- A client that has connected and sent two messages
abbrev after : ClientInput → ClientState → ClientState
after input s = (handle_client input s).0

abbrev connecting_client : ClientState
connecting_client =
    after (socket_set true) (after resolved (after start_connect_called (new_client true)))

abbrev online_client : ClientState
online_client = after connection_made connecting_client

abbrev sending_client : ClientState
sending_client = after (message_sent join_bytes) (after (message_sent join_bytes) online_client)

online-Reached : Reached true online_client
unfolding new_client handle_client start_connect reset_state close_socket on_resolved set_open
online-Reached =
    then_happens connecting_client connection_made
      (then_happens (after resolved (after start_connect_called (new_client true)))
        (socket_set true)
        (then_happens (after start_connect_called (new_client true)) resolved
          (then_happens (new_client true) start_connect_called fresh tt) (omega arith))
        (omega arith))
      (omega arith)

sending-Reached : Reached true sending_client
sending-Reached =
    then_happens (after (message_sent join_bytes) online_client) (message_sent join_bytes)
      (then_happens online_client (message_sent join_bytes) online-Reached tt) tt

Reached-IsOrderly_example : IsOrderly sending_client
Reached-IsOrderly_example = Reached-IsOrderly true sending_client sending-Reached

send_message_lem_example : outbox (send_message join_bytes online_client) ≡ (
    if is_connected online_client
      && (online_client.is_open
          && (leb (length join_bytes) max_message_size
              && ltb (length online_client.write_queue) max_queue_size))
    then outbox online_client ++ (encode_frame join_bytes ∷ [])
    else outbox online_client)
send_message_lem_example = send_message_lem true online_client join_bytes online-Reached

still_online : is_connected sending_client ≡ true
unfolding handle_client on_connected read_more is_connected state_is_connected send_message
    queue_message write_next begin_write encode_frame on_resolved start_connect reset_state set_open
still_online = refl

one_write : sending_client.writes ≤ 1
unfolding new_client handle_client start_connect reset_state close_socket on_resolved on_connected
    read_more is_connected state_is_connected send_message queue_message write_next begin_write
    encode_frame set_open
one_write = omega arith

two_waiting : 2 ≤ length (outbox sending_client)
unfolding new_client handle_client start_connect reset_state close_socket on_resolved on_connected
    read_more is_connected state_is_connected send_message queue_message write_next begin_write
    encode_frame set_open
two_waiting = omega arith

after_writes_lem_example :
    (outbox (after_writes 2 sending_client) ≡ drop 2 (outbox sending_client))
    × (0 < length (outbox (after_writes 2 sending_client))
        → (after_writes 2 sending_client).writes ≡ 1)
after_writes_lem_example =
    after_writes_lem true 2 sending_client sending-Reached still_online one_write two_waiting

sending_client-IsSole : IsSole sending_client
unfolding new_client handle_client start_connect reset_state close_socket on_resolved on_connected
    read_more is_connected state_is_connected send_message queue_message write_next begin_write
    encode_frame set_open
sending_client-IsSole = record { one = omega arith; idle = λ h. absurd (cc h) }

handle_client-IsSole_example :
    IsSole (after start_connect_called sending_client)
    ⊎ IsCutOff sending_client (after start_connect_called sending_client)
handle_client-IsSole_example =
    handle_client-IsSole start_connect_called sending_client sending_client-IsSole

-- A client that connects again while a write is pending: when that write ends, it takes the new one to have ended, and
-- begins the next beside it.
abbrev again_client : ClientState
again_client = after (message_sent join_bytes) (
    after (message_sent join_bytes) (
      after connection_made
        (after (socket_set true) (after resolved (after start_connect_called sending_client)))))

overlapping : (after message_written again_client).writes ≡ 2
unfolding new_client handle_client start_connect reset_state close_socket on_resolved on_connected
    read_more is_connected state_is_connected send_message queue_message write_next begin_write
    encode_frame set_open on_written
overlapping = refl
