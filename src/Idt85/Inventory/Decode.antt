-- ===== src/Idt85/Inventory/Decode.antt =====
-- The tags of an inventory response against an encoder of tag lists.
use mvd_edge_agent.Prelude.{
  ℕ, zero, suc, ◌+◌, ◌-◌, ◌≤◌, ◌<◌, ◌≡◌, refl, ap, sym, ◌∙◌, false, some, List, [], ◌∷◌, ◌++◌, map,
  append_assoc, append-nil, arith, ltb, leb, length, get_or, take, drop, length-append, length-drop,
  length-take, drop-drop, drop-suc, take-append-drop, get_or-drop, drop_next, take-length_append,
  drop-length_append, Text,
}
use mvd_edge_agent.Idt85.Inventory.{epc_text, slice, read_tags, read_tags_leniently}

-- Each tag as its length and its bytes.
abbrev pub encode_tags : List (List ℕ) → List ℕ
encode_tags [] = []
encode_tags (epc ∷ epcs) = length epc ∷ (epc ++ encode_tags epcs)

-- Where the encoding of `epcs` stands at `position`, with two more bytes behind it, the loop reads
-- exactly these tags.
pub read_tags-encode_tags :
    (epcs : List (List ℕ)) (response rest : List ℕ) (position : ℕ) (tags : List Text)
    → drop position response ≡ encode_tags epcs ++ rest
    → 2 ≤ length rest
    → read_tags (length epcs) response position tags ≡ some (tags ++ map epc_text epcs)
unfolding read_tags
read_tags-encode_tags [] response rest position tags h two = ap some (sym (append-nil tags))
read_tags-encode_tags (epc ∷ epcs) response rest position tags h two =
    rw (size, inside, fits, bytes)
      (read_tags-encode_tags epcs response rest (position + 1 + length epc)
          (tags ++ epc_text epc ∷ []) further two
        ∙ ap some (append_assoc tags (epc_text epc ∷ []) (map epc_text epcs)))
  where
    size : get_or response position 0 ≡ length epc
    size = get_or-drop position response 0 h

    body : drop (position + 1) response ≡ epc ++ (encode_tags epcs ++ rest)
    body = drop_next position response h ∙ append_assoc epc (encode_tags epcs) rest

    bytes : slice (position + 1) (length epc) response ≡ epc
    bytes = ap (take (length epc)) body ∙ take-length_append epc _

    further : drop (position + 1 + length epc) response ≡ encode_tags epcs ++ rest
    further =
        sym (drop-drop (position + 1) (length epc) response)
        ∙ ap (drop (length epc)) body
        ∙ drop-length_append epc _

    total : length response - (position + 1 + length epc) ≡ length (encode_tags epcs) + length rest
    total =
        sym (length-drop (position + 1 + length epc) response)
        ∙ ap length further
        ∙ length-append (encode_tags epcs) rest

    inside : leb (length response - 2) position ≡ false
    inside = ground (arith, total)

    fits : ltb (length response - 2) (position + 1 + length epc) ≡ false
    fits = ground (arith, total)

-- A round that goes on: its tests, and the call that it makes.
pub read_tags_round :
    (count : ℕ) (response : List ℕ) (position : ℕ) (before : List Text) (tags : List Text)
    → read_tags (suc count) response position before ≡ some tags
    → (position < length response - 2)
      × (position + 1 + get_or response position 0 ≤ length response - 2)
      × (read_tags count response
            (position + 1 + get_or response position 0)
            (before ++ epc_text (slice (position + 1) (get_or response position 0) response) ∷ [])
          ≡ some tags)
unfolding read_tags
read_tags_round count response position before tags h = ground arith

-- One more encoded tag in front of an encoding.
encode_tags_next :
    (response : List ℕ) (position size : ℕ) (epcs : List (List ℕ)) (rest : List ℕ)
    → position < length response - 2
    → position + 1 + size ≤ length response - 2
    → get_or response position 0 ≡ size
    → drop (position + 1 + size) response ≡ encode_tags epcs ++ rest
    → drop position response ≡ encode_tags (slice (position + 1) size response ∷ epcs) ++ rest
encode_tags_next response position size epcs rest inside fits known h =
    drop-suc position response 0 (omega arith)
    ∙ ap (λ (n : ℕ). n ∷ drop (suc position) response) (known ∙ sym long)
    ∙ ap (λ (t : List ℕ). length epc ∷ t) body
  where
    epc : List ℕ
    epc = slice (position + 1) size response

    long : length epc ≡ size
    long = omega (
      arith,
      length-take size (drop (position + 1) response),
      length-drop (position + 1) response,
    )

    one : suc position ≡ position + 1
    one = omega arith

    body : drop (suc position) response ≡ (epc ++ encode_tags epcs) ++ rest
    body =
        ap (λ (n : ℕ). drop n response) one
        ∙ sym (take-append-drop size (drop (position + 1) response))
        ∙ ap (λ (t : List ℕ). epc ++ t) (drop-drop (position + 1) size response ∙ h)
        ∙ sym (append_assoc epc (encode_tags epcs) rest)

-- What the loop accepts is the encoding of as many tags as it was to read, with as
-- many of the two bytes behind it as it started with, and it returns these tags.
pub read_tags_sound :
    (room count : ℕ) (response : List ℕ) (position : ℕ) (before : List Text) (tags : List Text)
    → room ≤ 2
    → position + room ≤ length response
    → read_tags count response position before ≡ some tags
    → (epcs : List (List ℕ)) × (rest : List ℕ) × (drop position response ≡ encode_tags epcs ++ rest)
      × (room ≤ length rest)
      × (length epcs ≡ count)
      × (tags ≡ before ++ map epc_text epcs)
unfolding read_tags
read_tags_sound room zero response position before tags two fit h = (
  [],
  drop position response,
  refl,
  rw length-drop (omega arith),
  refl,
  ground (arith, append-nil before),
)
read_tags_sound room (suc count) response position before tags two fit h =
    let size = get_or response position 0 in
    let epc = slice (position + 1) size response in
    let (inside, fits, next) = read_tags_round count response position before tags h in
    let (epcs, rest, encoded, behind, as_many, found) =
      read_tags_sound room count response (position + 1 + size) (before ++ epc_text epc ∷ []) tags
        two (omega arith) next in
    (
      epc ∷ epcs,
      rest,
      encode_tags_next response position size epcs rest inside fits refl encoded,
      behind,
      omega arith,
      found ∙ append_assoc before (epc_text epc ∷ []) (map epc_text epcs),
    )

-- Where the strict loop accepts, the lenient one returns the same tags.
pub read_tags_leniently_agrees :
    (count : ℕ) (response : List ℕ) (position : ℕ) (before : List Text) (tags : List Text)
    → read_tags count response position before ≡ some tags
    → read_tags_leniently count response position before ≡ tags
unfolding read_tags read_tags_leniently
read_tags_leniently_agrees zero response position before tags h = ground arith
read_tags_leniently_agrees (suc count) response position before tags h = ground (
  arith,
  read_tags_leniently_agrees count response (position + 1 + get_or response position 0)
      (before ++ epc_text (slice (position + 1) (get_or response position 0) response) ∷ []) tags,
)
