-- ===== src/Tests/Frames.antt =====
-- Frames of the reader's protocol.
use mvd_edge_agent.Prelude.{
  ℕ, ◌≡◌, ◌↔◌, ◌⊎◌, ◌+◌, refl, true, false, List, [], ◌∷◌, map, Text, codes, arith, get_or, length,
  take,
}
use mvd_edge_agent.Outcome.{ok}
use mvd_edge_agent.Idt85.Crc.{has_valid_crc, crc16, AreBytes}
use mvd_edge_agent.Idt85.Crc.Residue.{residue, has_valid_crc_iff}
use mvd_edge_agent.Idt85.Crc.Detect.{has_valid_crc-one_byte}
use mvd_edge_agent.Idt85.Command.{make_command}
use mvd_edge_agent.Idt85.Command.Frame.{make_command_lem}
use mvd_edge_agent.Idt85.Inventory.{
  valid, epc_text, classify_inventory_response, parse_inventory_response,
  is_no_tag_inventory_response,
}
use mvd_edge_agent.Idt85.Inventory.Responses.{
  CarriesTags, inventory_frame, classify-inventory_frame, classify_sound, parse-classify,
}

-- The inventory command with the checksum that the source's documentation gives.
abbrev inventory_bytes : List ℕ
inventory_bytes = 4 ∷ 0 ∷ 0x01 ∷ 0xDB ∷ 0x4B ∷ []

inventory_bytes-AreBytes : AreBytes inventory_bytes
inventory_bytes-AreBytes =
    (omega arith, (omega arith, (omega arith, (omega arith, (omega arith, tt)))))

has_valid_crc_iff_example : (has_valid_crc inventory_bytes ≡ true) ↔ (residue inventory_bytes ≡ 0)
has_valid_crc_iff_example = has_valid_crc_iff inventory_bytes inventory_bytes-AreBytes (omega arith)

inventory_bytes-valid : has_valid_crc inventory_bytes ≡ true
unfolding has_valid_crc crc16
inventory_bytes-valid = refl

has_valid_crc-one_byte_example : has_valid_crc (4 ∷ 0 ∷ 0x21 ∷ 0xDB ∷ 0x4B ∷ []) ≡ false
has_valid_crc-one_byte_example =
    has_valid_crc-one_byte (4 ∷ 0 ∷ []) (0xDB ∷ 0x4B ∷ []) 0x01 0x21 inventory_bytes-AreBytes
      (omega arith) (omega arith) inventory_bytes-valid

make_command_lem_example :
    (frame : List ℕ) × (make_command 0 0x35 (0 ∷ 5 ∷ []) ≡ ok frame)
    × (length frame ≡ get_or frame 0 0 + 1)
    × (take 5 frame ≡ 6 ∷ 0 ∷ 0x35 ∷ 0 ∷ 5 ∷ [])
    × (has_valid_crc frame ≡ true)
make_command_lem_example =
    make_command_lem 0 0x35 (0 ∷ 5 ∷ []) (omega arith) (omega arith)
      (omega arith, (omega arith, tt)) (omega arith)

abbrev two_tags : List (List ℕ)
two_tags = (0xE2 ∷ 0x01 ∷ []) ∷ (0xE2 ∷ 0x02 ∷ []) ∷ []

abbrev two_texts : List Text
two_texts = codes "E201" ∷ codes "E202" ∷ []

classify-inventory_frame_example :
    classify_inventory_response (inventory_frame 0 1 two_tags 0 0)
    ≡ record { status = valid; tags = map epc_text two_tags }
classify-inventory_frame_example = classify-inventory_frame 0 1 two_tags 0 0 refl

abbrev two_frame : List ℕ
two_frame = inventory_frame 0 1 two_tags 0 0

classify_sound_example :
    ((is_no_tag_inventory_response two_frame ≡ true) × (map epc_text two_tags ≡ []))
    ⊎ CarriesTags two_frame (map epc_text two_tags)
classify_sound_example =
    classify_sound two_frame (map epc_text two_tags)
      (classify-inventory_frame 0 1 two_tags 0 0 refl)

parse-classify_example : parse_inventory_response two_frame ≡ map epc_text two_tags
parse-classify_example =
    parse-classify two_frame (map epc_text two_tags)
      (classify-inventory_frame 0 1 two_tags 0 0 refl)

abbrev short_tag : List ℕ
short_tag = 0xE2 ∷ []
