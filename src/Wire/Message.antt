-- ===== src/Wire/Message.antt =====
-- src/common/wire/serder.cpp: a message is an array of its packed type and its arguments.
use dungeon_crawler.Base.{
  ◌>>=◌, ◌>>◌, guard, length, ℕ, ◌+◌, ◌%◌, ◌^◌, not, Option, none, some, List, [], ◌∷◌,
}
use dungeon_crawler.Types.MessageType.{MessageType}
use dungeon_crawler.Types.MessageUtils.{is_unknown_message, pack_message_type, unpack_message_type}
use dungeon_crawler.App.Router.{Message}
use dungeon_crawler.Wire.{
  Cbor, read_cbor_uint, array_elements, cbor_to_message, buffer_to_cbor, read_all,
}

module _ (c : Cbor) where
  unfoldable pub add_arg_to_array : c.Array → ℕ → Option c.Array
  add_arg_to_array arr value = do item ← c.build_uint64 value; c.array_push arr item

  -- `getMsgArgsFromCborArray`, of the elements of the array
  unfoldable pub get_msg_args : List c.Item → Option (List ℕ)
  unfolding read_all read_cbor_uint
  get_msg_args [] = none
  get_msg_args (type ∷ args) = read_all c (read_cbor_uint c) args

  unfoldable pub create_message_array : MessageType → ℕ → Option c.Array
  unfolding add_arg_to_array
  create_message_array type num_args = do
    guard (not (is_unknown_message type))
    packed ← pack_message_type type
    arr ← c.new_definite_array (1 + num_args)
    add_arg_to_array arr packed

  -- The loop of `serializeMessageToBuffer`
  unfoldable pub add_args : c.Array → List ℕ → Option c.Array
  unfolding add_arg_to_array
  add_args arr [] = some arr
  add_args arr (value ∷ args) = do added ← add_arg_to_array arr value; add_args added args

  unfoldable pub serialize_message_to_buffer : MessageType → List ℕ → Option (List ℕ)
  unfolding create_message_array add_args cbor_to_message
  serialize_message_to_buffer type args = do
    arr ← create_message_array type (length args)
    filled ← add_args arr args
    cbor_to_message c (c.array_item filled)

  -- `deserializeBufferToMessage`: the code of the type is cast to uint16_t.
  unfoldable pub message_of : List c.Item → Option Message
  unfolding get_msg_args read_cbor_uint
  message_of [] = none
  message_of (type_item ∷ args) = do
    packed ← read_cbor_uint c type_item
    type ← unpack_message_type (packed % 2 ^ 16)
    msg_args ← get_msg_args (type_item ∷ args)
    some (record { type = type; args = msg_args })

  unfoldable pub deserialize_buffer_to_message : List ℕ → Option Message
  unfolding buffer_to_cbor array_elements message_of
  deserialize_buffer_to_message buffer = do
    root ← buffer_to_cbor c buffer
    items ← array_elements c root
    message_of items
