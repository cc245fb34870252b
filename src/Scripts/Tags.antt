-- ===== src/Scripts/Tags.antt =====
-- What tools/read_epc.py prints of an answer that the driver accepts.
use mvd_edge_agent.Prelude.{
  ℕ, zero, suc, ◌+◌, ◌≤◌, ◌<◌, ◌≡◌, refl, ◌∙◌, true, false, some, List, [], ◌∷◌, ◌++◌, map, arith,
  length, get_or, ltb, append_assoc, append-nil, length-take, length-drop, drop, Text, codes,
}
use mvd_edge_agent.Outcome.{ok}
use mvd_edge_agent.Idt85.Inventory.{
  epc_text, slice, is_tag_status, read_tags, valid_result, classify_inventory_response,
  is_no_tag_inventory_response,
}
use mvd_edge_agent.Idt85.Inventory.Decode.{read_tags_round}
use mvd_edge_agent.Idt85.Inventory.Responses.{classify_passes}
use mvd_edge_agent.Cloud.{decimal}
use mvd_edge_agent.Cli.Format.{labelled}
use mvd_edge_agent.Scripts.{Terminal}
use mvd_edge_agent.Scripts.ReadEpc.{report_tags, report_response}

-- The four lines of each tag, numbered from the given number on.
abbrev pub tag_lines : ℕ → List (List ℕ) → List Text
tag_lines number [] = []
tag_lines number (epc ∷ epcs) =
    labelled (codes "TAG") (decimal number)
    ∷ labelled (codes "EPC:") (epc_text epc)
    ∷ labelled (codes "EPC bytes:") (decimal (length epc))
    ∷ []
    ∷ tag_lines (number + 1) epcs

abbrev pub printed : {W : Type 0} → Terminal W → List Text → Terminal W
printed t lines = record { world = t.world; lines = t.lines ++ lines }

-- A round that reads a tag.
report_tags_round :
    {W : Type 0} (response : List ℕ) (count number position : ℕ) (t : Terminal W)
    → position < length response
    → report_tags response (suc count) number position t
      ≡ report_tags response count (number + 1) (position + 1 + get_or response position 0) (
          printed t (
            labelled (codes "TAG") (decimal number)
            ∷ labelled
                (codes "EPC:")
                (epc_text (slice (position + 1) (get_or response position 0) response))
            ∷ labelled (codes "EPC bytes:") (decimal (get_or response position 0))
            ∷ []
            ∷ []))
unfolding report_tags
report_tags_round response count number position t inside = rw found refl
  where
    found : ltb position (length response) ≡ true
    found = ground arith

-- The loop prints the tags that the strict loop of the driver reads.
report_tags-read_tags :
    {W : Type 0} (response : List ℕ) (count number position : ℕ) (before tags : List Text)
    (t : Terminal W)
    → read_tags count response position before ≡ some tags
    → (epcs : List (List ℕ)) × (tags ≡ before ++ map epc_text epcs)
      × (length epcs ≡ count)
      × (report_tags response count number position t ≡ (ok tt, printed t (tag_lines number epcs)))
unfolding report_tags read_tags
report_tags-read_tags response zero number position before tags t h =
    ([], ground (arith, append-nil before), refl, rw (append-nil t.lines) refl)
report_tags-read_tags response (suc count) number position before tags t h =
    let size = get_or response position 0 in
    let epc = slice (position + 1) size response in
    let (inside, fits, next) = read_tags_round count response position before tags h in
    let long : length epc ≡ size = omega (
      arith,
      length-take size (drop (position + 1) response),
      length-drop (position + 1) response,
    ) in
    let lines =
      labelled (codes "TAG") (decimal number)
      ∷ labelled (codes "EPC:") (epc_text epc)
      ∷ labelled (codes "EPC bytes:") (decimal size)
      ∷ []
      ∷ [] in
    let (epcs, found, as_many, rest) =
      report_tags-read_tags response count (number + 1) (position + 1 + size)
        (before ++ epc_text epc ∷ []) tags (printed t lines) next in
    (
      epc ∷ epcs,
      found ∙ append_assoc before (epc_text epc ∷ []) (map epc_text epcs),
      omega arith,
      report_tags_round response count number position t (omega arith)
          ∙ rest
          ∙ rw (append_assoc t.lines lines (tag_lines (number + 1) epcs), long) refl,
    )

-- What passes the three tests is reported tag by tag.
report_passes :
    {W : Type 0} (response : List ℕ) (t : Terminal W)
    → 8 ≤ length response
    → get_or response 2 0 ≡ 1
    → is_tag_status (get_or response 3 0) ≡ true
    → report_response response t
      ≡ report_tags response
          (get_or response 4 0)
          1
          5
          (printed t (labelled (codes "Tags detected:") (decimal (get_or response 4 0)) ∷ [] ∷ []))
unfolding report_response
report_passes response t eight command status = rw (long, command, status) refl
  where
    long : ltb (length response) 8 ≡ false
    long = ground arith

-- Where the driver accepts an answer that is not that of an empty field, of eight bytes or more,
-- tools/read_epc.py raises nothing and prints the number of tags and an empty line, then for each
-- tag in turn its number from 1 on, its text, the number of its bytes and an empty line; the texts
-- are those that the driver returns, and there are as many as the count byte says.
pub report_response-classify :
    {W : Type 0} (response : List ℕ) (tags : List Text) (t : Terminal W)
    → classify_inventory_response response ≡ valid_result tags
    → is_no_tag_inventory_response response ≡ false
    → 8 ≤ length response
    → (epcs : List (List ℕ)) × (tags ≡ map epc_text epcs)
      × (length epcs ≡ get_or response 4 0)
      × (report_response response t ≡ (
        ok tt,
        printed t
            (labelled (codes "Tags detected:") (decimal (length epcs)) ∷ [] ∷ tag_lines 1 epcs),
      ))
report_response-classify response tags t h tagged eight =
    let (whole, six, command, status, loop) = classify_passes response tags h tagged in
    let head = labelled (codes "Tags detected:") (decimal (get_or response 4 0)) ∷ [] ∷ [] in
    let (epcs, found, as_many, rest) =
      report_tags-read_tags response (get_or response 4 0) 1 5 [] tags (printed t head) loop in
    (
      epcs,
      found,
      as_many,
      report_passes response t eight command status
          ∙ rest
          ∙ rw (append_assoc t.lines head (tag_lines 1 epcs), as_many) refl,
    )
