-- ===== src/Idt85/Inventory/Responses.antt =====
-- `classify_inventory_response` as a whole (src/mvd_edge/adapters/idt85.py).
use Prim.Native.Nat.{min}
use mvd_edge_agent.Prelude.{
  ℕ, ◌+◌, ◌-◌, ◌≤◌, ◌≡◌, ◌⊎◌, true, false, some, List, [], ◌∷◌, ◌++◌, map, arith, inl, inr,
  Bool-cases, length, get_or, drop, length-append, Text,
}
use mvd_edge_agent.Idt85.Inventory.{
  epc_text, is_tag_status, parse_inventory_response, is_no_tag_inventory_response, read_tags,
  valid_result, classify_inventory_response,
}
use mvd_edge_agent.Idt85.Inventory.Decode.{
  encode_tags, read_tags-encode_tags, read_tags_sound, read_tags_leniently_agrees,
}

-- An inventory frame as the reader builds it: the length byte, the address, the command, the
-- status, the number of tags, the tags, and two bytes of checksum.
abbrev pub inventory_frame : ℕ → ℕ → List (List ℕ) → ℕ → ℕ → List ℕ
inventory_frame address status epcs lo hi =
    (length (encode_tags epcs) + 6)
    ∷ address
    ∷ 1
    ∷ status
    ∷ length epcs
    ∷ (encode_tags epcs ++ lo ∷ hi ∷ [])

-- Every frame that carries tags, with any of the four tag statuses, is classified as valid, with
-- the text of each of its tags in their order.
pub classify-inventory_frame :
    (address status : ℕ) (epcs : List (List ℕ)) (lo hi : ℕ)
    → is_tag_status status ≡ true
    → classify_inventory_response (inventory_frame address status epcs lo hi)
      ≡ valid_result (map epc_text epcs)
unfolding classify_inventory_response is_no_tag_inventory_response
classify-inventory_frame address status epcs lo hi h = ground (
  arith,
  length-append (encode_tags epcs) (lo ∷ hi ∷ []),
  read_tags-encode_tags epcs (inventory_frame address status epcs lo hi) (lo ∷ hi ∷ []) 5 [],
)

-- What a valid classification says about a response that is not the empty-field answer.
pub record CarriesTags (response : List ℕ) (tags : List Text) : Type 0 where
  pub epcs : List (List ℕ)
  pub trailer : List ℕ
  pub encoded : drop 5 response ≡ encode_tags epcs ++ trailer
  pub behind : min 2 (length response - 5) ≤ length trailer
  pub counted : length epcs ≡ get_or response 4 0
  pub texts : tags ≡ map epc_text epcs
  pub is_inventory : get_or response 2 0 ≡ 1
  pub tag_status : is_tag_status (get_or response 3 0) ≡ true
  pub whole : (get_or response 0 0 ≡ 0) ⊎ (length response ≡ get_or response 0 0 + 1)

-- The empty-field answer carries no tags, for either parser.
classify_empty :
    (response : List ℕ) (tags : List Text)
    → classify_inventory_response response ≡ valid_result tags
    → is_no_tag_inventory_response response ≡ true
    → tags ≡ []
unfolding classify_inventory_response
classify_empty [] tags h empty = cc
classify_empty (first ∷ others) tags h empty = ground arith

parse_empty :
    (response : List ℕ)
    → is_no_tag_inventory_response response ≡ true
    → parse_inventory_response response ≡ []
unfolding parse_inventory_response is_no_tag_inventory_response
parse_empty response h = ground arith

-- The tests that a response with tags passes.
pub classify_passes :
    (response : List ℕ) (tags : List Text)
    → classify_inventory_response response ≡ valid_result tags
    → is_no_tag_inventory_response response ≡ false
    → ((get_or response 0 0 ≡ 0) ⊎ (length response ≡ get_or response 0 0 + 1))
      × (6 ≤ length response)
      × (get_or response 2 0 ≡ 1)
      × (is_tag_status (get_or response 3 0) ≡ true)
      × (read_tags (get_or response 4 0) response 5 [] ≡ some tags)
unfolding classify_inventory_response
classify_passes [] tags h tagged = cc
classify_passes (first ∷ others) tags h tagged = ground arith

-- A valid classification is either the checked empty-field answer, with no tags, or the texts of
-- exactly as many encoded tags as the count byte says, behind a header with the inventory command,
-- a tag status and, unless it is zero, the right length byte; two bytes stand behind the tags,
-- or one where the response has six bytes.
pub classify_sound :
    (response : List ℕ) (tags : List Text)
    → classify_inventory_response response ≡ valid_result tags
    → ((is_no_tag_inventory_response response ≡ true) × (tags ≡ [])) ⊎ CarriesTags response tags
classify_sound response tags h = elim (Bool-cases (is_no_tag_inventory_response response)) [
  | inl empty ↦ inl (empty, classify_empty response tags h empty)
  | inr tagged ↦
      let (whole, six, command, status, loop) = classify_passes response tags h tagged in
      let (epcs, trailer, encoded, behind, counted, texts) =
        read_tags_sound (min 2 (length response - 5)) (get_or response 4 0) response 5 [] tags
          (omega arith) (omega arith) loop in
      inr (record {
        epcs = epcs;
        trailer = trailer;
        encoded = encoded;
        behind = behind;
        counted = counted;
        texts = texts;
        is_inventory = command;
        tag_status = status;
        whole = whole;
      })
]

-- Where the strict classification is valid, the lenient parser returns the same tags.
pub parse-classify :
    (response : List ℕ) (tags : List Text)
    → classify_inventory_response response ≡ valid_result tags
    → parse_inventory_response response ≡ tags
unfolding parse_inventory_response
parse-classify response tags h = elim (Bool-cases (is_no_tag_inventory_response response)) [
  | inl empty ↦ rw (classify_empty response tags h empty) (parse_empty response empty)
  | inr tagged ↦
      let (whole, six, command, status, loop) = classify_passes response tags h tagged in
      ground (arith, read_tags_leniently_agrees (get_or response 4 0) response 5 [] tags loop)
]
