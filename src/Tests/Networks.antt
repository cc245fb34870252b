-- ===== src/Tests/Networks.antt =====
-- The network telemetry on a test world.
use mvd_edge_agent.Prelude.{
  arith, ◌≡◌, refl, inl, text_eq, [], ◌∷◌, codes, Text, ◌==◌, ◌||◌, if◌then◌else◌,
}
use mvd_edge_agent.Prelude.Splits.{Lacks, IsLine}
use mvd_edge_agent.Network.{collect_network_telemetry}
use mvd_edge_agent.Network.Output.{NetworkDevice, parse_nmcli_devices}
use mvd_edge_agent.Network.Lines.{IsTerse, IsPrintable, printed, parse_nmcli_devices-printed}
use mvd_edge_agent.Network.Telemetry.{Yields, IsConsistent, collect_network_telemetry-IsConsistent}
use mvd_edge_agent.Tests.{test_host, start}

abbrev wired : NetworkDevice
wired = record {
  interface = codes "eth0";
  kind = codes "ethernet";
  state = codes "connected";
  connection = codes "Wired: 1";
}

abbrev modem : NetworkDevice
modem = record {
  interface = codes "cdc0";
  kind = codes "gsm";
  state = codes "disconnected";
  connection = [];
}

-- A backslash in front of each colon and backslash.
abbrev escaped : Text → Text
escaped [] = []
escaped (c ∷ t) =
    let rest = escaped t in if (c == b':') || (c == 0x5C) then 0x5C ∷ c ∷ rest else c ∷ rest

escaped-plain : (t : Text) → Lacks b':' t → Lacks 0x5C t → escaped t ≡ t
escaped-plain [] colons backslashes = refl
escaped-plain (c ∷ t) colons backslashes =
    ground (arith, colons, backslashes, escaped-plain t colons.1 backslashes.1)

escaped-IsLine : (t : Text) → IsLine t → IsLine (escaped t)
escaped-IsLine [] is_line = tt
escaped-IsLine (c ∷ t) is_line = ground (arith, is_line, escaped-IsLine t is_line.1)

escaped-IsTerse : IsTerse escaped []
escaped-IsTerse = record { plain = escaped-plain; on_a_line = escaped-IsLine; missing = inl refl }

wired-IsPrintable : IsPrintable escaped [] wired
unfolding text_eq
wired-IsPrintable = ground arith

modem-IsPrintable : IsPrintable escaped [] modem
unfolding text_eq
modem-IsPrintable = ground arith

parse_nmcli_devices-printed_example :
    parse_nmcli_devices (printed escaped [] (wired ∷ modem ∷ []))
    ≡ record wired { connection = codes "Wired\\: 1" } ∷ modem ∷ []
parse_nmcli_devices-printed_example =
    parse_nmcli_devices-printed escaped [] escaped-IsTerse (wired ∷ modem ∷ [])
      (wired-IsPrintable, (modem-IsPrintable, tt))

collect_network_telemetry-IsConsistent_example :
    Yields IsConsistent (collect_network_telemetry test_host start)
collect_network_telemetry-IsConsistent_example =
    collect_network_telemetry-IsConsistent test_host start
