-- ===== src/Discovery/Probes.antt =====
-- What the probing of the ports one after the other finds (src/mvd_edge/discovery/serial.py).
use mathlib.Core.Path.{subst}
use mvd_edge_agent.Prelude.{
  ◌≡◌, ◌↔◌, refl, ap, sym, ◌∙◌, Bool, true, Option, List, [], ◌∷◌, arith, Text,
}
use mvd_edge_agent.Outcome.{Outcome, ok, raised}
use mvd_edge_agent.Host.{Host}
use mvd_edge_agent.Idt85.Device.{Idt85Reader, create}
use mvd_edge_agent.Reader.{open_port, verify_reader}
use mvd_edge_agent.Discovery.{
  Metadata, DiscoveredSerialDevice, ProbeSettings, candidate_port, device_of, verdict, probe_opened,
  probe_reader_port, probe_all,
}

module _ (h : Host) (s : ProbeSettings) where
  open h use {World}

  -- The reader of a port opens in that outside world, and it then passes its verification.
  abbrev pub IsVerified : Text → World → Type 0
  IsVerified port w =
      (reader : Idt85Reader) × (opened : Idt85Reader) × (create port s.baudrate s.reader_address
          s.read_delay s.reader_verify_method
        ≡ ok reader)
      × ((open_port h reader w).0 ≡ ok opened)
      × ((verify_reader h opened (open_port h reader w).1).0 ≡ ok true)

  -- Devices that are found by probing these ports one after the other from an outside world on: each
  -- has the port of its metadata, and is a verified reader exactly if the reader there passes its
  -- verification when its turn comes.
  abbrev pub AreProbes : World → List Metadata → List DiscoveredSerialDevice → Type 0
  AreProbes w [] [] = Unit
  AreProbes w [] (d ∷ devices) = ⊥
  AreProbes w (m ∷ candidates) [] = ⊥
  AreProbes w (m ∷ candidates) (d ∷ devices) =
      (d.port ≡ candidate_port m)
      × ((d.reader_verified ≡ true) ↔ IsVerified (candidate_port m) w)
      × AreProbes (probe_reader_port h s (candidate_port m) w).1 candidates devices

  verdict_iff : (outcome : Outcome Bool) → ((verdict h outcome).0 ≡ true) ↔ (outcome ≡ ok true)
  verdict_iff (ok verified) = (λ e. ap ok e, λ e. ground (arith, e))
  verdict_iff (raised e) = (λ e. cc, λ e. cc)

  probe_opened_iff :
      (reader : Idt85Reader) (attempt : Outcome Idt85Reader × World)
      → ((probe_opened h reader attempt).0.0 ≡ true) ↔ (
          (opened : Idt85Reader) × (attempt.0 ≡ ok opened)
          × ((verify_reader h opened attempt.1).0 ≡ ok true))
  unfolding probe_opened
  probe_opened_iff reader (raised e, w) = (λ e. cc, λ (opened, e, v). cc)
  probe_opened_iff reader (ok opened, w) =
      let (passes, passed) = verdict_iff (verify_reader h opened w).0 in
      (
        λ e. (opened, refl, passes e),
        λ (other, same, v). passed (
            subst (λ (r : Idt85Reader). (verify_reader h r w).0 ≡ ok true)
              (sym (ok_eq opened other same)) v),
      )
    where
      ok_eq : (a b : Idt85Reader) → ok a ≡ ok b → a ≡ b
      ok_eq a b e = ground (arith, e)

  probe_reader_port_iff :
      (port : Text) (w : World) (result : Bool × Option Text)
      → (probe_reader_port h s port w).0 ≡ ok result
      → (result.0 ≡ true) ↔ IsVerified port w
  unfolding probe_reader_port
  probe_reader_port_iff port w result probed =
      by_create (create port s.baudrate s.reader_address s.read_delay s.reader_verify_method) probed
    where
      flag : (a b : Bool × Option Text) → ok a ≡ ok b → a.0 ≡ b.0
      flag a b e = ground (arith, e)

      reader_eq : (a b : Idt85Reader) → ok a ≡ ok b → a ≡ b
      reader_eq a b e = ground (arith, e)

      by_create :
          (built : Outcome Idt85Reader)
          → (elim built as (λ _. Outcome (Bool × Option Text) × World) [
            | raised e ↦ (raised e, w)
            | ok reader ↦
                let (result, w') = probe_opened h reader (open_port h reader w) in (ok result, w')
          ]).0
            ≡ ok result
          → (result.0 ≡ true) ↔ (
              (reader : Idt85Reader) × (opened : Idt85Reader) × (built ≡ ok reader)
              × ((open_port h reader w).0 ≡ ok opened)
              × ((verify_reader h opened (open_port h reader w).1).0 ≡ ok true))
      by_create (raised e) probed = cc
      by_create (ok reader) probed =
          let attempt = open_port h reader w in
          let (found, back) = probe_opened_iff reader attempt in
          let same = flag (probe_opened h reader attempt).0 result probed in
          (
            λ e. (let (opened, o, v) = found (same ∙ e) in (reader, opened, refl, o, v)),
            λ (other, opened, r, o, v).
                sym same
                ∙ back (
                    subst
                      (λ (r : Idt85Reader).
                        (opened : Idt85Reader) × ((open_port h r w).0 ≡ ok opened)
                        × ((verify_reader h opened (open_port h r w).1).0 ≡ ok true))
                      (sym (reader_eq reader other r)) (opened, o, v)),
          )

  abbrev pub HasProbes : World → List Metadata → Outcome (List DiscoveredSerialDevice) → Type 0
  HasProbes w candidates (ok devices) = AreProbes w candidates devices
  HasProbes w candidates (raised e) = Unit

  HasProbes-both :
      (m : Metadata) (candidates : List Metadata) (w : World)
      (outcome : Outcome (Bool × Option Text)) (w1 : World)
      (rest : Outcome (List DiscoveredSerialDevice)) (w2 : World)
      → ((result : Bool × Option Text)
          → outcome ≡ ok result
          → (result.0 ≡ true) ↔ IsVerified (candidate_port m) w)
      → HasProbes (probe_reader_port h s (candidate_port m) w).1 candidates rest
      → HasProbes w
          (m ∷ candidates)
          (elim outcome as (λ _. Outcome (List DiscoveredSerialDevice) × World) [
            | raised e ↦ (raised e, w1)
            | ok result ↦ elim rest as (λ _. Outcome (List DiscoveredSerialDevice) × World) [
              | raised e ↦ (raised e, w2)
              | ok devices ↦ (ok (device_of h m result ∷ devices), w2)
            ]
          ]).0
  HasProbes-both m candidates w (raised e) w1 rest w2 flag others = tt
  HasProbes-both m candidates w (ok result) w1 (raised e) w2 flag others = tt
  HasProbes-both m candidates w (ok result) w1 (ok devices) w2 flag others =
      (refl, flag result refl, others)

  pub probe_all-HasProbes :
      (candidates : List Metadata) (w : World)
      → HasProbes w candidates (probe_all h s candidates w).0
  unfolding probe_all
  probe_all-HasProbes [] w = tt
  probe_all-HasProbes (m ∷ candidates) w =
      let w1 = (probe_reader_port h s (candidate_port m) w).1 in
      HasProbes-both m candidates w (probe_reader_port h s (candidate_port m) w).0 w1
        (probe_all h s candidates w1).0 (probe_all h s candidates w1).1
        (probe_reader_port_iff (candidate_port m) w) (probe_all-HasProbes candidates w1)
