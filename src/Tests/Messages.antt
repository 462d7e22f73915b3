-- ===== src/Tests/Messages.antt =====
-- Messages, packets and ids.
use christians_steam_framewo.Base.{
  ◌+◌, ◌%◌, leb, ◌>>=◌, ◌^◌, ◌<◌, List, [], ◌∷◌, ◌++◌, Bytes, bytes_eq, none, some, ok, threw,
  out_of_fuel, invalid_magic, ◌≡◌, ◌≢◌, ◌↔◌, refl, arith, inl, inr, length, take, drop,
  length-append, take-append, drop-append, to_little, if◌then◌else◌, ltb, true, false,
}
use christians_steam_framewo.Wire.{
  store_int, store_bytes, Protobuf, SerializesSmall, DecodesEncoded, store_all, get_all, get_int,
  get_bytes,
}
use christians_steam_framewo.Wire.Laws.{layout, store_all_lem, get_all-layout}
use christians_steam_framewo.Message.{
  empty, Simple, serialize_base, peek_message_type, serialize_simple, deserialize_simple,
  make_extended, serialize_extended, deserialize_extended, serialize_header, deserialize_header,
  serialize_message, deserialize_message,
}
use christians_steam_framewo.Message.RoundTrip.{
  deserialize-serialize_simple, deserialize-serialize_extended, deserialize-serialize_header,
  deserialize-serialize_message, peek_message_type-serialize_base,
}
use christians_steam_framewo.Tcp.{
  Socket, Delivers, read_header, make_header, serialize_header as serialize_packet_header,
  write_packet,
}
use christians_steam_framewo.Tcp.Framing.{
  read_packets, write_packets, read_packets-write_packets, read_header_lem, framed,
}
use christians_steam_framewo.MultiPacket.{Client, Message, handle, handle_packet}
use christians_steam_framewo.MultiPacket.Unpack.{
  joined, Handles, done, packet, handle-joined, handle-joined_cut,
}
use christians_steam_framewo.MultiPacket.Total.{handle-total}
use christians_steam_framewo.BitField.SteamId
use christians_steam_framewo.BitField.GlobalId

-- A protobuf library that takes the bytes themselves for the message.
abbrev plain : Protobuf
plain = record {
  Proto = Bytes;
  encode = λ m. m;
  serializes = λ m size. leb (length m) size;
  decode = λ b size. some (take size b, size);
}

plain-SerializesSmall : SerializesSmall plain
plain-SerializesSmall m l = ground arith

plain-DecodesEncoded : DecodesEncoded plain
plain-DecodesEncoded m rest l = rw (take-append m rest) refl

deserialize-serialize_message_example :
    (serialize_message plain plain 5 (1 ∷ []) (2 ∷ 3 ∷ []) empty >>= λ (_, s).
    deserialize_message plain plain 0 s.result)
    ≡ ok (((5, 1 ∷ []), 2 ∷ 3 ∷ []), [])
deserialize-serialize_message_example =
    deserialize-serialize_message plain plain 5 0 (1 ∷ []) (2 ∷ 3 ∷ []) plain-SerializesSmall
      plain-SerializesSmall plain-DecodesEncoded plain-DecodesEncoded (omega arith) (omega arith)
      (omega arith) (inr refl)

deserialize-serialize_header_test :
    (serialize_header plain 5 (1 ∷ []) empty >>= λ (_, s).
    deserialize_header plain 5 (s.result ++ 7 ∷ []))
    ≡ ok ((5, 1 ∷ []), 7 ∷ [])
deserialize-serialize_header_test =
    deserialize-serialize_header plain 5 5 (1 ∷ []) (7 ∷ []) plain-SerializesSmall
      plain-DecodesEncoded (omega arith) (omega arith) (inl refl)

abbrev simple : Simple
simple = record { msg_type = 1303; target_job_id = 1; source_job_id = 2 }

deserialize-serialize_simple_test :
    ((serialize_simple simple empty).0 ≡ 20)
    × (length (serialize_simple simple empty).1.result ≡ 20)
    × (deserialize_simple simple ((serialize_simple simple empty).1.result ++ 9 ∷ [])
        ≡ ok (simple, 9 ∷ []))
deserialize-serialize_simple_test =
    deserialize-serialize_simple simple simple (9 ∷ []) (omega arith)
      (omega arith, (omega arith, tt)) (inl refl)

deserialize-serialize_extended_example :
    ((serialize_extended (make_extended 1303) empty).0 ≡ 35)
    × (length (serialize_extended (make_extended 1303) empty).1.result + 1
        ≡ (make_extended 1303).header_size)
    × (deserialize_extended
          (make_extended 1303)
          ((serialize_extended (make_extended 1303) empty).1.result ++ [])
        ≡ ok (make_extended 1303, []))
unfolding make_extended
deserialize-serialize_extended_example =
    deserialize-serialize_extended (make_extended 1303) (make_extended 1303) [] (omega arith)
      (omega arith, (omega arith, (omega arith, (omega arith, (omega arith, (omega arith, tt))))))
      (inl refl)

peek_message_type-serialize_base_test :
    peek_message_type ((serialize_base true 5 empty).1.result ++ 1 ∷ []) ≡ ok 5
peek_message_type-serialize_base_test =
    peek_message_type-serialize_base true 5 (1 ∷ []) (omega arith)

store_two_integers :
    (store_all ((2, 258) ∷ (1, 7) ∷ []) empty
      ≡ (3, record empty { result = [] ++ layout ((2, 258) ∷ (1, 7) ∷ []) }))
    × (length (layout ((2, 258) ∷ (1, 7) ∷ [])) ≡ 3)
store_two_integers = store_all_lem ((2, 258) ∷ (1, 7) ∷ []) empty

get_all-layout_test :
    get_all (2 ∷ 1 ∷ []) (layout ((2, 258) ∷ (1, 7) ∷ []) ++ 5 ∷ []) ≡ ok (258 ∷ 7 ∷ [], 5 ∷ [])
get_all-layout_test =
    get_all-layout ((2, 258) ∷ (1, 7) ∷ []) (5 ∷ []) (omega arith, (omega arith, tt))

-- A socket on the bytes that are still to come.
abbrev pipe : Socket
pipe = record {
  Stream = Bytes;
  async_read = λ n s. if ltb (length s) n then none else some (take n s, drop n s);
}

length-not_below : (xs ys : Bytes) → ltb (length (xs ++ ys)) (length xs) ≡ false
length-not_below xs ys = ground (arith, length-append xs ys)

pipe_reads :
    (s xs ys : Bytes) → s ≡ xs ++ ys → (pipe.async_read (length xs) s ≡ some (xs, ys)) × (ys ≡ ys)
pipe_reads s xs ys e =
    rw e (rw (length-not_below xs ys, take-append xs ys, drop-append xs ys) (refl, refl))

abbrev pipe_delivers : Delivers pipe
pipe_delivers = record { incoming = λ s. s; after = λ s xs ys. ys; reads = pipe_reads }

abbrev two_packets : List Bytes
two_packets = (1 ∷ 2 ∷ 0 ∷ 0 ∷ []) ∷ [] ∷ []

written : write_packets two_packets ≡ ok (framed two_packets [])
unfolding write_packets framed write_packet make_header serialize_packet_header store_int
    store_bytes to_little bytes_eq
written = refl

read_packets-write_packets_example :
    (s' : Bytes) × (read_packets pipe two_packets (framed two_packets [] ++ 4 ∷ [])
      ≡ ok (two_packets, s'))
    × (s' ≡ 4 ∷ [])
read_packets-write_packets_example =
    read_packets-write_packets pipe pipe_delivers two_packets (framed two_packets [] ++ 4 ∷ [])
      (framed two_packets []) (4 ∷ []) (omega arith, (omega arith, tt)) written refl

read_header_lem_test : read_header (to_little 4 7 ++ 1 ∷ 2 ∷ 3 ∷ 4 ∷ []) ≡ threw invalid_magic
unfolding bytes_eq
read_header_lem_test = read_header_lem 7 1 2 3 4 (omega arith)

-- A client that notes the packets it is given.
abbrev noting : Client
noting = record {
  State = List Bytes;
  handlers = λ t. some (λ b s. some (b ∷ s, none));
  gunzip = λ b. ok b;
}

abbrev noted : List Bytes
noted = (1 ∷ 2 ∷ 0 ∷ 0 ∷ []) ∷ []

first_handled : handle_packet noting (1 ∷ 2 ∷ 0 ∷ 0 ∷ []) [] ≡ ok (noted, none)
unfolding handle_packet get_int get_bytes
first_handled = refl

abbrev two_joined : Message
two_joined = record { body = some (joined two_packets []); size_unzipped = none }

handle-joined_example : handle noting two_joined [] ≡ ok ((1 ∷ 2 ∷ 0 ∷ 0 ∷ []) ∷ [], none)
handle-joined_example =
    handle-joined noting two_joined {ps = two_packets} {s = []} {t = noted} refl tt
      (packet (omega arith) first_handled (Handles.empty done))

abbrev cut_short : Message
cut_short = record {
  body = some (joined two_packets (to_little 4 3 ++ 9 ∷ []));
  size_unzipped = none;
}

handle-joined_cut_test : handle noting cut_short [] ≡ ok ((1 ∷ 2 ∷ 0 ∷ 0 ∷ []) ∷ [], none)
handle-joined_cut_test =
    handle-joined_cut noting cut_short {ps = two_packets} {s = []} {t = noted} 3 (9 ∷ [])
      (omega arith) (omega arith) refl tt (packet (omega arith) first_handled (Handles.empty done))

handle-total_example : handle noting two_joined [] ≢ out_of_fuel
handle-total_example = handle-total noting two_joined [] tt

get-set_test :
    (SteamId.get SteamId.universe (SteamId.set SteamId.universe 257 5) ≡ 1)
    × (SteamId.set SteamId.universe 257 5 < 2 ^ 64)
get-set_test = SteamId.get-set SteamId.universe SteamId.universe 257 5 (omega arith)

get-set_global_test :
    (GlobalId.get GlobalId.process_id (GlobalId.set GlobalId.box_id 3 0)
      ≡ GlobalId.get GlobalId.process_id 0)
    × (GlobalId.set GlobalId.box_id 3 0 < 2 ^ 64)
get-set_global_test = GlobalId.get-set_global GlobalId.box_id GlobalId.process_id 3 0 (omega arith)

get_start_time-set_start_time_test :
    GlobalId.get_start_time (GlobalId.set_start_time 1700000000 0) ≡ 1700000000
get_start_time-set_start_time_test =
    GlobalId.get_start_time-set_start_time 1700000000 0 (omega arith) (omega arith) (omega arith)

make_job_id-eq_iff_example :
    ((GlobalId.make_job_id 1700000000 1).1 ≡ (GlobalId.make_job_id 1700000000 1048577).1)
    ↔ (1 % 2 ^ 20 ≡ 1048577 % 2 ^ 20)
make_job_id-eq_iff_example =
    GlobalId.make_job_id-eq_iff 1700000000 1 1048577 (omega arith) (omega arith)
