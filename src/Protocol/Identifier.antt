-- ===== src/Protocol/Identifier.antt =====
-- The 29-bit identifier of can-lite/core/CanProtocolDefinitions.hpp as a product of fields.
use can_lite.Base.{ℕ, ◌+◌, ◌*◌, ◌/◌, ◌%◌, ◌^◌, ◌<◌, ◌≡◌, arith}
use can_lite.Base.Bits.{bit_or_add, bit_and_mask}
use can_lite.Protocol.{
  CanPriority, emergency, priority_value, make_can_id, extract_can_priority, extract_can_category,
  extract_can_message_type, extract_can_node_id,
}

pub priority_value-lt : (p : CanPriority) → priority_value p < 17
priority_value-lt emergency = omega arith
priority_value-lt _ = omega arith

-- The identifier as the sum of its fields.
pub make_can_id_sum :
    (p : CanPriority) (category message_type node_id : ℕ)
    → message_type < 256
    → make_can_id p category message_type node_id
      ≡ priority_value p * 16777216 + category % 16 * 1048576 + message_type * 4096 + node_id % 4096
unfolding make_can_id
make_can_id_sum p c m n h =
    let pb = priority_value-lt p in
    rw
      (
        bit_and_mask 4 c,
        bit_and_mask 12 n,
        bit_or_add 24 (priority_value p * 16777216 % 4294967296) (c % 16 * 1048576 % 4294967296)
            (omega arith) (omega arith),
        bit_or_add 20 (priority_value p * 16777216 % 4294967296 + c % 16 * 1048576 % 4294967296)
            (m * 4096 % 4294967296) (omega arith) (omega arith),
        bit_or_add 12
            (priority_value p * 16777216 % 4294967296
              + c % 16 * 1048576 % 4294967296
              + m * 4096 % 4294967296)
            (n % 4096) (omega arith) (omega arith),
      )
      (omega arith)

pub extract_can_priority_lem : (id : ℕ) → extract_can_priority id ≡ id / 16777216 % 32
unfolding extract_can_priority
extract_can_priority_lem id = bit_and_mask 5 (id / 16777216)

pub extract_can_category_lem : (id : ℕ) → extract_can_category id ≡ id / 1048576 % 16
unfolding extract_can_category
extract_can_category_lem id = omega (arith, bit_and_mask 4 (id / 1048576))

pub extract_can_message_type_lem : (id : ℕ) → extract_can_message_type id ≡ id / 4096 % 256
unfolding extract_can_message_type
extract_can_message_type_lem id = omega (arith, bit_and_mask 8 (id / 4096))

pub extract_can_node_id_lem : (id : ℕ) → extract_can_node_id id ≡ id % 4096
unfolding extract_can_node_id
extract_can_node_id_lem id = omega (arith, bit_and_mask 12 id)

ruleset fields = (
  arith, extract_can_priority_lem, extract_can_category_lem, extract_can_message_type_lem,
  extract_can_node_id_lem,
)

-- An identifier made of a priority, a category, a message type of 8 bits and a node id fits 29
-- bits, and the four extractions give the priority, the low 4 bits of the category, the message
-- type and the low 12 bits of the node id back.
pub extract-make_can_id :
    (p : CanPriority) (category message_type node_id : ℕ)
    → message_type < 256
    → let id = make_can_id p category message_type node_id in
      (id < 2 ^ 29)
      × (extract_can_priority id ≡ priority_value p)
      × (extract_can_category id ≡ category % 16)
      × (extract_can_message_type id ≡ message_type)
      × (extract_can_node_id id ≡ node_id % 4096)
extract-make_can_id p c m n h =
    let e = make_can_id_sum p c m n h in
    let pb = priority_value-lt p in
    let id = make_can_id p c m n in
    (
      omega arith,
      omega (arith, extract_can_priority_lem id),
      omega (arith, extract_can_category_lem id),
      omega (arith, extract_can_message_type_lem id),
      omega (arith, extract_can_node_id_lem id),
    )

-- An identifier of 29 bits whose priority field is that of a priority `p` is the one that `p` and
-- its own category, message type and node id make: no two identifiers share all four fields.
pub make_can_id-extract :
    (id : ℕ) (p : CanPriority)
    → id < 2 ^ 29
    → extract_can_priority id ≡ priority_value p
    → make_can_id p (extract_can_category id) (extract_can_message_type id) (extract_can_node_id id)
      ≡ id
make_can_id-extract id p h e = omega (
  fields,
  make_can_id_sum p (extract_can_category id) (extract_can_message_type id) (extract_can_node_id id)
      (omega (arith, extract_can_message_type_lem id)),
)
