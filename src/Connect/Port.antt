-- ===== src/Connect/Port.antt =====
-- The serial port after a connection (src/mvd_edge/app.py).
use mvd_edge_agent.Prelude.{◌≡◌, refl, Bool, true, false, arith, Text}
use mvd_edge_agent.Outcome.{Outcome, ok, raised, message}
use mvd_edge_agent.Host.{Host}
use mvd_edge_agent.Idt85.Device.{Idt85Reader}
use mvd_edge_agent.Reader.{open_port, close_port, get_work_mode, verify_reader}
use mvd_edge_agent.Health.{ReaderState, ready}
use mvd_edge_agent.Connect.{
  Connection, refuse, accept, configure, negotiate, abandon, settle, connect_opened,
  connect_and_verify_reader,
}

abbrev pub is_ready : ReaderState → Bool
is_ready ready = true
is_ready _ = false

-- The port is open exactly if the reader is ready.
abbrev pub HoldsPort : Connection → Type 0
HoldsPort c = c.reader.is_open ≡ is_ready c.state

abbrev HoldsPortIfOk : Outcome Connection → Type 0
HoldsPortIfOk (ok c) = HoldsPort c
HoldsPortIfOk (raised e) = Unit

module _ (h : Host) where
  open h use {World}

  close_port-is_open :
      (reader : Idt85Reader) (w : World) → (close_port h reader w).0.is_open ≡ false
  unfolding close_port
  close_port-is_open reader w = ground arith

  refuse-HoldsPort :
      (reader : Idt85Reader) (why : Text) (w : World) → HoldsPortIfOk (refuse h reader why w).0
  unfolding refuse
  refuse-HoldsPort reader why w = close_port-is_open reader w

  configure-HoldsPort :
      (reader : Idt85Reader) (w : World)
      → reader.is_open ≡ true
      → HoldsPortIfOk (configure h reader w).0
  unfolding configure accept refuse close_port
  configure-HoldsPort reader w o = ground arith

  negotiate-HoldsPort :
      (auto_configure : Bool) (reader : Idt85Reader) (w : World)
      → reader.is_open ≡ true
      → HoldsPortIfOk (negotiate h auto_configure reader w).0
  unfolding negotiate accept refuse close_port
  negotiate-HoldsPort auto_configure reader w o =
      ground
        (arith, configure-HoldsPort reader (get_work_mode h reader (verify_reader h reader w).1).1)

  abandon-HoldsPort :
      (reader : Idt85Reader) (why : Text) (w : World) → HoldsPort (abandon h reader why w).0
  unfolding abandon
  abandon-HoldsPort reader why w = close_port-is_open reader w

  settle-HoldsPort :
      (reader : Idt85Reader) (result : Outcome Connection × World)
      → HoldsPortIfOk result.0
      → HoldsPort (settle h reader result).0
  unfolding settle
  settle-HoldsPort reader (ok c, w) holds = holds
  settle-HoldsPort reader (raised e, w) holds = abandon-HoldsPort reader (message e) w

  connect_opened-HoldsPort :
      (auto_configure : Bool) (reader : Idt85Reader) (opened : Outcome Idt85Reader × World)
      → ((r : Idt85Reader) → opened.0 ≡ ok r → r.is_open ≡ true)
      → HoldsPort (connect_opened h auto_configure reader opened).0
  unfolding connect_opened
  connect_opened-HoldsPort auto_configure reader (raised e, w) is_open =
      abandon-HoldsPort reader (message e) w
  connect_opened-HoldsPort auto_configure reader (ok r, w) is_open =
      settle-HoldsPort r _ (negotiate-HoldsPort auto_configure r w (is_open r refl))

  open_port-is_open :
      (reader : Idt85Reader) (w : World) (r : Idt85Reader)
      → (open_port h reader w).0 ≡ ok r
      → r.is_open ≡ true
  unfolding open_port
  open_port-is_open reader w r e = ground arith

  -- However connecting ends, by a return or by the handler of an exception, the serial port is
  -- open afterwards exactly if the state it returns is READY.
  pub connect_and_verify_reader-HoldsPort :
      (reader : Idt85Reader) (auto_configure : Bool) (w : World)
      → HoldsPort (connect_and_verify_reader h reader auto_configure w).0
  unfolding connect_and_verify_reader
  connect_and_verify_reader-HoldsPort reader auto_configure w =
      connect_opened-HoldsPort auto_configure reader (open_port h reader w)
        (open_port-is_open reader w)
