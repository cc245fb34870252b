-- ===== src/Idt85/Inventory.antt =====
-- Inventory responses (src/mvd_edge/adapters/idt85.py): the strict classification that the agent
-- uses and the lenient parser beside it.
pub mod Decode
pub mod Responses
pub mod Epc
use mvd_edge_agent.Prelude.{
  ℕ, zero, suc, ◌+◌, ◌-◌, ◌≡◌, refl, Bool, true, false, not, ◌&&◌, ◌||◌, Option, none, some, List,
  [], ◌∷◌, ◌++◌, ltb, leb, ◌==◌, if◌then◌else◌, length, get_or, take, drop, Text, codes, hex, upper,
}
use mvd_edge_agent.Idt85.Crc.{crc16, has_valid_crc}
use mvd_edge_agent.Idt85.Command.{inventory_command, inventory_no_tag_status}

pub data InventoryStatus : Type 0 where
  valid no_response malformed : InventoryStatus

pub record InventoryResult : Type 0 where
  pub status : InventoryStatus
  pub tags : List Text

-- `epc_bytes.hex().upper()`
unfoldable pub epc_text : List ℕ → Text
epc_text bytes = upper (hex bytes)

-- `response[position:position + count]`
abbrev pub slice : ℕ → ℕ → List ℕ → List ℕ
slice position count response = take count (drop position response)

abbrev pub is_tag_status : ℕ → Bool
is_tag_status status = status == 0x01 || status == 0x02 || status == 0x03 || status == 0x04

-- The loop of `parse_inventory_response`: it stops at the first tag that does not fit.
pub read_tags_leniently : ℕ → List ℕ → ℕ → List Text → List Text
read_tags_leniently zero response position tags = tags
read_tags_leniently (suc count) response position tags =
    let epc_length = get_or response position 0 in
    let after = position + 1 in
    let rest =
      read_tags_leniently count response (after + epc_length)
        (tags ++ epc_text (slice after epc_length response) ∷ []) in
    if leb (length response - 2) position
    then tags
    else if ltb (length response - 2) (after + epc_length)
    then tags
    else rest

unfoldable pub parse_inventory_response : List ℕ → List Text
unfolding read_tags_leniently
parse_inventory_response response =
    if ltb (length response) 6
    then []
    else if not (get_or response 2 0 == inventory_command)
    then []
    else if not (is_tag_status (get_or response 3 0))
    then []
    else read_tags_leniently (get_or response 4 0) response 5 []

unfoldable pub is_no_tag_inventory_response : List ℕ → Bool
is_no_tag_inventory_response response =
    length response == 6
    && (get_or response 0 0 == 0x05
        && (get_or response 2 0 == inventory_command
            && (get_or response 3 0 == inventory_no_tag_status && has_valid_crc response)))

-- The loop of `classify_inventory_response`: `none` is its return of a malformed result.
unfoldable pub read_tags : ℕ → List ℕ → ℕ → List Text → Option (List Text)
read_tags zero response position tags = some tags
read_tags (suc count) response position tags =
    let epc_length = get_or response position 0 in
    let after = position + 1 in
    let rest =
      read_tags count response (after + epc_length)
        (tags ++ epc_text (slice after epc_length response) ∷ []) in
    if leb (length response - 2) position
    then none
    else if ltb (length response - 2) (after + epc_length)
    then none
    else rest

abbrev pub malformed_result : InventoryResult
malformed_result = record { status = malformed; tags = [] }

abbrev pub valid_result : List Text → InventoryResult
valid_result tags = record { status = valid; tags = tags }

abbrev pub finish : Option (List Text) → InventoryResult
finish none = malformed_result
finish (some tags) = valid_result tags

unfoldable pub classify_inventory_response : List ℕ → InventoryResult
unfolding read_tags
classify_inventory_response [] = record { status = no_response; tags = [] }
classify_inventory_response (first ∷ others) =
    let response = first ∷ others in
    if not (first == 0) && not (length response == first + 1)
    then malformed_result
    else if ltb (length response) 6
    then malformed_result
    else if not (get_or response 2 0 == inventory_command)
    then malformed_result
    else if is_no_tag_inventory_response response
    then valid_result []
    else if not (is_tag_status (get_or response 3 0))
    then malformed_result
    else finish (read_tags (get_or response 4 0) response 5 [])

-- The no-tag response observed on the hardware.
classify_no_tag :
    classify_inventory_response (0x05 ∷ 0x00 ∷ 0x01 ∷ 0xFB ∷ 0xF2 ∷ 0x3D ∷ []) ≡ valid_result []
unfolding classify_inventory_response is_no_tag_inventory_response has_valid_crc crc16
classify_no_tag = refl
