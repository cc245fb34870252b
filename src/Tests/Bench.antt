-- ===== src/Tests/Bench.antt =====
-- The scripts for the bench on concrete answers.
use mvd_edge_agent.Prelude.{
  ℕ, ◌≡◌, refl, [], ◌∷◌, List, codes, map, length, hex, upper, arith, get_or,
}
use mvd_edge_agent.Outcome.{ok}
use mvd_edge_agent.Idt85.Inventory.{
  epc_text, read_tags, classify_inventory_response, is_no_tag_inventory_response,
}
use mvd_edge_agent.Idt85.Command
use mvd_edge_agent.Cloud.{decimal}
use mvd_edge_agent.Cli.Format.{labelled}
use mvd_edge_agent.Scripts.{Terminal}
use mvd_edge_agent.Scripts.WorkMode
use mvd_edge_agent.Scripts.AnswerMode
use mvd_edge_agent.Scripts.ReadEpc
use mvd_edge_agent.Scripts.ReadEpc.{report_response}
use mvd_edge_agent.Scripts.Inventory
use mvd_edge_agent.Scripts.InventoryAddr00
use mvd_edge_agent.Scripts.Inventory0f
use mvd_edge_agent.Scripts.InventoryParams
use mvd_edge_agent.Scripts.Frames.{frames-BuildTheSame}
use mvd_edge_agent.Scripts.Tags.{tag_lines, printed, report_response-classify}
use mvd_edge_agent.Tests.{TestWorld, start}

frames-BuildTheSame_example :
    (WorkMode.make_command 0 0x36 ≡ Command.make_command 0 0x36 [])
    × (ReadEpc.make_command 0 0x36 ≡ Command.make_command 0 0x36 [])
    × (Inventory.make_command 0 0x36 ≡ Command.make_command 0 0x36 [])
    × (InventoryAddr00.make_command 0 0x36 ≡ Command.make_command 0 0x36 [])
    × (Inventory0f.make_command 0 0x36 ≡ Command.make_command 0 0x36 [])
    × (InventoryParams.make_command 0 0x36 InventoryParams.params
        ≡ Command.make_command 0 0x36 InventoryParams.params)
    × (AnswerMode.make_command 0 0x36 AnswerMode.params
        ≡ Command.make_command 0 0x36 AnswerMode.params)
frames-BuildTheSame_example =
    frames-BuildTheSame 0 0x36 InventoryParams.params AnswerMode.params refl

-- One tag of two bytes.
abbrev answer : List ℕ
answer = 0x09 ∷ 0x00 ∷ 0x01 ∷ 0x01 ∷ 0x01 ∷ 0x02 ∷ 0xE2 ∷ 0x01 ∷ 0x00 ∷ 0x00 ∷ []

abbrev screen : Terminal TestWorld
screen = record { world = start; lines = [] }

report_response-classify_example :
    (epcs : List (List ℕ)) × (codes "E201" ∷ [] ≡ map epc_text epcs)
    × (length epcs ≡ get_or answer 4 0)
    × (report_response answer screen ≡ (
      ok tt,
      printed screen
          (labelled (codes "Tags detected:") (decimal (length epcs)) ∷ [] ∷ tag_lines 1 epcs),
    ))
unfolding classify_inventory_response is_no_tag_inventory_response read_tags epc_text hex upper
report_response-classify_example =
    report_response-classify answer (codes "E201" ∷ []) screen refl refl (omega arith)
