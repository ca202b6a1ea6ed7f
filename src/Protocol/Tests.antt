-- ===== src/Protocol/Tests.antt =====
-- An emergency stop of category 2 to node 5, as an identifier.
use can_lite.Base.{◌^◌, ◌<◌, ◌≡◌, refl, arith}
use can_lite.Protocol.{
  command, response, make_can_id, extract_can_priority, extract_can_category,
  extract_can_message_type, extract_can_node_id,
}
use can_lite.Protocol.Identifier.{extract-make_can_id, make_can_id-extract}

command_id : make_can_id command 2 0x11 5 ≡ 0x04211005
unfolding make_can_id
command_id = refl

extract-make_can_id_example :
    let id = make_can_id command 2 0x11 5 in
    (id < 2 ^ 29)
    × (extract_can_priority id ≡ 4)
    × (extract_can_category id ≡ 2)
    × (extract_can_message_type id ≡ 0x11)
    × (extract_can_node_id id ≡ 5)
extract-make_can_id_example = extract-make_can_id command 2 0x11 5 (omega arith)

make_can_id-extract_example :
    make_can_id response
      (extract_can_category 0x08002005)
      (extract_can_message_type 0x08002005)
      (extract_can_node_id 0x08002005)
    ≡ 0x08002005
unfolding extract_can_priority
make_can_id-extract_example = make_can_id-extract 0x08002005 response (omega arith) refl
