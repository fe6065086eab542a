-- ===== src/Wire/Messages.antt =====
-- A message that was serialized is deserialized to itself.
use dungeon_crawler.Base.{
  Option-cases, ◌>>=◌, length, All, ℕ, suc, ◌+◌, ◌%◌, ◌^◌, ◌<◌, ◌≡◌, refl, sym, ap, ◌∙◌, inl, inr,
  false, Option, some, List, [], ◌∷◌, arith,
}
use dungeon_crawler.Types.MessageType.{
  MessageType, monostate, network_message, app_message, domain_message,
}
use dungeon_crawler.Types.MessageUtils.{is_unknown_message, pack_message_type, unpack_message_type}
use dungeon_crawler.Types.MessageUtils.Packing.{
  IsMessage, pack_message_type-lt, unpack-pack, pack-unpack,
}
use dungeon_crawler.App.Router.{Message}
use dungeon_crawler.Wire.{
  Loaded, Cbor, read_cbor_uint, elements_of, array_elements, whole, buffer_to_cbor, push_each,
  read_all,
}
use dungeon_crawler.Wire.Laws.{IsDocumented}
use dungeon_crawler.Wire.Vectors.{
  IsFilled, read_uint64, RoundTrips, push_each-IsFilled, cbor_to_message-loads,
}
use dungeon_crawler.Wire.Message.{
  add_arg_to_array, get_msg_args, create_message_array, add_args, serialize_message_to_buffer,
  message_of, deserialize_buffer_to_message,
}

-- The arguments are 64-bit numbers.
abbrev pub AreArgs : List ℕ → Type 0
AreArgs = All (λ n. n < 2 ^ 64)

IsMessage-known : (v : MessageType) → IsMessage v → is_unknown_message v ≡ false
unfolding is_unknown_message
IsMessage-known monostate h = absurd (h.0 refl)
IsMessage-known (network_message t) h = refl
IsMessage-known (app_message t) h = refl
IsMessage-known (domain_message t) h = refl

-- The code that a message of the protocol is packed to
IsMessage-code :
    (v : MessageType)
    → IsMessage v
    → (n : ℕ) × (pack_message_type v ≡ some n) × (n < 1024) × (unpack_message_type n ≡ some v)
IsMessage-code v h = elim (Option-cases (pack_message_type v)) [
  | inl e ↦ absurd (cc (unpack-pack v h, ap (λ o. o >>= unpack_message_type) e))
  | inr (n, e) ↦ (
    n,
    e,
    pack_message_type-lt v n e,
    sym (ap (λ o. o >>= unpack_message_type) e) ∙ unpack-pack v h,
  )
]

module _ (c : Cbor) (laws : IsDocumented c) where
  add_args-push_each :
      (a : c.Array) (args : List ℕ) → add_args c a args ≡ push_each c c.build_uint64 a args
  unfolding add_args add_arg_to_array push_each
  add_args-push_each a [] = refl
  add_args-push_each a (n ∷ args) = elim (Option-cases (c.build_uint64 n)) [
    | inl e ↦ rw e refl
    | inr (i, e) ↦ rw e (elim (Option-cases (c.array_push a i)) [
      | inl f ↦ rw f refl
      | inr (b, f) ↦ rw f (add_args-push_each b args)
    ])
  ]

  args-RoundTrips :
      (args : List ℕ)
      → AreArgs args
      → All (RoundTrips c laws c.build_uint64 (read_cbor_uint c)) args
  args-RoundTrips [] h = tt
  args-RoundTrips (n ∷ args) h = (read_uint64 c laws n h.0, args-RoundTrips args h.1)

  create_message_array-IsFilled :
      (v : MessageType) (n k : ℕ)
      → IsMessage v
      → pack_message_type v ≡ some k
      → k < 1024
      → (a : c.Array) × (i : c.Item) × (create_message_array c v n ≡ some a)
        × (read_cbor_uint c i ≡ some k)
        × IsFilled c laws a (i ∷ []) n
  unfolding create_message_array add_arg_to_array
  create_message_array-IsFilled v n k h e b =
      let (i, built, r) = read_uint64 c laws k (omega arith) in
      let (a, new, shown, room) = laws.new_array-shows (1 + n) in
      let (d, pushed, s, t) = laws.array_push-shows a i [] n shown (room ∙ omega arith) in
      (d, i, rw (IsMessage-known v h) (rw e (rw new (rw built pushed))), r, (s, t))

  message_of_lem :
      (v : MessageType) (args : List ℕ) (k : ℕ) (i : c.Item) (more : List c.Item)
      → read_cbor_uint c i ≡ some k
      → k < 1024
      → unpack_message_type k ≡ some v
      → read_all c (read_cbor_uint c) more ≡ some args
      → message_of c (i ∷ more) ≡ some (record { type = v; args = args })
  unfolding message_of get_msg_args
  message_of_lem v args k i more r small e u =
      let same : k % 2 ^ 16 ≡ k = omega arith in rw r (rw same (rw e (rw u refl)))

  -- A message of the protocol with 64-bit arguments can be serialized, and the bytes are deserialized to the same
  -- type and arguments, if libcbor does what it documents.
  pub deserialize-serialize_message :
      (v : MessageType) (args : List ℕ)
      → IsMessage v
      → AreArgs args
      → (b : List ℕ) × (serialize_message_to_buffer c v args ≡ some b)
        × (deserialize_buffer_to_message c b ≡ some (record { type = v; args = args }))
  unfolding serialize_message_to_buffer deserialize_buffer_to_message array_elements elements_of
  deserialize-serialize_message v args h as_args =
      let (k, packed, small, unpacked) = IsMessage-code v h in
      let (a, i, made, r, fill) = create_message_array-IsFilled v (length args) k h packed small in
      let (d, more, p, t, u) =
        push_each-IsFilled c laws c.build_uint64 (read_cbor_uint c) a (i ∷ []) args
          (args-RoundTrips args as_args) fill in
      let (b, s, l) = cbor_to_message-loads c laws (c.array_item d) in
      (
        b,
        rw made (rw (add_args-push_each a args) (rw p s)),
        rw l (rw t (message_of_lem v args k i more r small unpacked u)),
      )

module _ (c : Cbor) where
  read_all-length :
      {A : Type 0} (g : c.Item → Option A) (items : List c.Item) (xs : List A)
      → read_all c g items ≡ some xs
      → length items ≡ length xs
  unfolding read_all
  read_all-length g [] xs h = ground (arith, h)
  read_all-length g (i ∷ items) xs h = elim (Option-cases (g i)) [
    | inl e ↦ absurd (ground (arith, h, e))
    | inr (x, e) ↦ elim (Option-cases (read_all c g items)) [
      | inl f ↦ absurd (ground (arith, h, e, f))
      | inr (ys, f) ↦ ground (arith, h, e, f, read_all-length g items ys f)
    ]
  ]

  message_of_sound :
      (items : List c.Item) (m : Message)
      → message_of c items ≡ some m
      → IsMessage m.type × (length items ≡ suc (length m.args))
  unfolding message_of get_msg_args
  message_of_sound [] m h = absurd (cc h)
  message_of_sound (t ∷ items) m h = elim (Option-cases (read_cbor_uint c t)) [
    | inl e ↦ absurd (ground (arith, h, e))
    | inr (k, e) ↦ elim (Option-cases (unpack_message_type (k % 2 ^ 16))) [
      | inl f ↦ absurd (ground (arith, h, e, f))
      | inr (v, f) ↦ elim (Option-cases (read_all c (read_cbor_uint c) items)) [
        | inl u ↦ absurd (ground (arith, h, e, f, u))
        | inr (args, u) ↦ ground (
          arith,
          h,
          e,
          f,
          u,
          pack-unpack (k % 2 ^ 16) v (omega arith) f,
          read_all-length (read_cbor_uint c) items args u,
        )
      ]
    ]
  ]

  whole_sound :
      (size : ℕ) (l : Loaded c.Item) (i : c.Item)
      → whole c size l ≡ some i
      → (l.failed ≡ false) × (l.read ≡ size) × (l.root ≡ some i)
  unfolding whole
  whole_sound size l i h = ground (arith, h)

  -- Whatever the buffer and whatever libcbor makes of it: if a message is deserialized, then loading has not failed and
  -- has read the buffer to its end, what it loaded is an array, the message has one argument for each element behind the
  -- first, and its type is one of the protocol. Every other buffer is refused.
  pub deserialize_message_sound :
      (b : List ℕ) (m : Message)
      → deserialize_buffer_to_message c b ≡ some m
      → ((c.load b).failed ≡ false)
        × ((c.load b).read ≡ length b)
        × IsMessage m.type
        × (items : List c.Item) × (root : c.Item) × ((c.load b).root ≡ some root)
        × (array_elements c root ≡ some items)
        × (length items ≡ suc (length m.args))
  unfolding deserialize_buffer_to_message buffer_to_cbor
  deserialize_message_sound b m h = elim (Option-cases (whole c (length b) (c.load b))) [
    | inl e ↦ absurd (ground (arith, h, e))
    | inr (i, e) ↦ elim (Option-cases (array_elements c i)) [
      | inl f ↦ absurd (ground (arith, h, e, f))
      | inr (items, f) ↦
          let same : message_of c items ≡ some m = rw (← h) (rw e (rw f refl)) in
          let (ok, read, root) = whole_sound (length b) (c.load b) i e in
          let (known, size) = message_of_sound items m same in
          (ok, read, known, items, i, root, f, size)
    ]
  ]
