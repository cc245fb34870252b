-- ===== src/Connect/Mode.antt =====
-- What connecting may send, and what a ready reader has answered (src/mvd_edge/app.py).
use mathlib.Core.Path.{subst}
use mvd_edge_agent.Prelude.{◌≡◌, refl, Bool, false, ◌⊎◌, inl, inr, some, arith, Text, ℕ}
use mvd_edge_agent.Outcome.{Outcome, ok, raised}
use mvd_edge_agent.Host.{Host}
use mvd_edge_agent.Idt85.Command.{answer_mode}
use mvd_edge_agent.Health.{ready}
use mvd_edge_agent.Idt85.Device.{Idt85Reader}
use mvd_edge_agent.Reader.{open_port, close_port, get_work_mode, set_answer_mode, verify_reader}
use mvd_edge_agent.Reader.Exchange.{IsWritable, get_work_mode-Keeps, verify_reader-Keeps}
use mvd_edge_agent.Connect.{
  Connection, refuse, accept, configure, negotiate, abandon, settle, connect_opened,
  connect_and_verify_reader,
}

module _ (h : Host) (I : h.World → Type 0) where
  open h use {World, sleep, serial_open, serial_close, serial_write, serial_read}

  module _ (keeps_sleep : (duration : ℕ) (w : World) → I w → I (sleep duration w))
      (keeps_read : (size : ℕ) (w : World) → I w → I (serial_read size w).1)
      (keeps_open : (port : Text) (baudrate : ℕ) (w : World)
        → I w
        → I (serial_open port baudrate w).1)
      (keeps_close : (w : World) → I w → I (serial_close w)) where
    close_port-Keeps : (reader : Idt85Reader) (w : World) → I w → I (close_port h reader w).1
    unfolding close_port
    close_port-Keeps reader w i = grind (arith, keeps_close)

    open_port-Keeps : (reader : Idt85Reader) (w : World) → I w → I (open_port h reader w).1
    unfolding open_port
    open_port-Keeps reader w i = grind (arith, keeps_open)

    module _ (reader : Idt85Reader) (keeps_info : IsWritable h I reader.reader_info_bytes)
        (keeps_mode : IsWritable h I reader.get_work_mode_bytes) where
      negotiate-Keeps : (w : World) → I w → I (negotiate h false reader w).1
      unfolding negotiate accept refuse
      negotiate-Keeps w i =
          let w1 = (verify_reader h reader w).1 in
          let w2 = (get_work_mode h reader w1).1 in
          let i1 =
            verify_reader-Keeps h I keeps_sleep keeps_read reader w keeps_info keeps_mode i in
          let i2 = get_work_mode-Keeps h I keeps_sleep keeps_read reader w1 keeps_mode i1 in
          ground (arith, i1, i2, close_port-Keeps reader w1 i1, close_port-Keeps reader w2 i2)

    settle-Keeps :
        (reader : Idt85Reader) (result : Outcome Connection × World)
        → I result.1
        → I (settle h reader result).1
    unfolding settle abandon
    settle-Keeps reader (ok c, w) i = i
    settle-Keeps reader (raised e, w) i = close_port-Keeps reader w i

    connect_opened-Keeps :
        (reader : Idt85Reader) (opened : Outcome Idt85Reader × World)
        → ((r : Idt85Reader)
            → opened.0 ≡ ok r
            → IsWritable h I r.reader_info_bytes × IsWritable h I r.get_work_mode_bytes)
        → I opened.1
        → I (connect_opened h false reader opened).1
    unfolding connect_opened abandon
    connect_opened-Keeps reader (raised e, w) writable i = close_port-Keeps reader w i
    connect_opened-Keeps reader (ok r, w) writable i =
        let (keeps_info, keeps_mode) = writable r refl in
        settle-Keeps r _ (negotiate-Keeps r keeps_info keeps_mode w i)

    opened-commands :
        (reader : Idt85Reader) (w : World) (r : Idt85Reader)
        → (open_port h reader w).0 ≡ ok r
        → (reader.reader_info_bytes ≡ r.reader_info_bytes)
          × (reader.get_work_mode_bytes ≡ r.get_work_mode_bytes)
    unfolding open_port
    opened-commands reader w r e = (ground arith, ground arith)

    opened-IsWritable :
        (reader : Idt85Reader) (w : World)
        → IsWritable h I reader.reader_info_bytes
        → IsWritable h I reader.get_work_mode_bytes
        → (r : Idt85Reader) → (open_port h reader w).0 ≡ ok r
        → IsWritable h I r.reader_info_bytes × IsWritable h I r.get_work_mode_bytes
    opened-IsWritable reader w keeps_info keeps_mode r e =
        let (same_info, same_mode) = opened-commands reader w r e in
        (subst (IsWritable h I) same_info keeps_info, subst (IsWritable h I) same_mode keeps_mode)

    -- Connecting without automatic configuration writes only the reader-information and the
    -- work-mode query to the port: what opening, closing, sleeping, reading and these two writes
    -- leave true of the outside world is true after it, however it ends.
    pub connect_and_verify_reader-Keeps :
        (reader : Idt85Reader) (w : World)
        → IsWritable h I reader.reader_info_bytes
        → IsWritable h I reader.get_work_mode_bytes
        → I w
        → I (connect_and_verify_reader h reader false w).1
    unfolding connect_and_verify_reader
    connect_and_verify_reader-Keeps reader w keeps_info keeps_mode i =
        connect_opened-Keeps reader (open_port h reader w)
          (opened-IsWritable reader w keeps_info keeps_mode) (open_port-Keeps reader w i)

-- The outside world is as a query that the reader answered with the answer mode left it.
abbrev pub HasJustAnswered : (h : Host) → Idt85Reader → h.World → Type 0
HasJustAnswered h r after =
    (w : h.World) × ((get_work_mode h r w).0 ≡ ok (some answer_mode))
    × ((get_work_mode h r w).1 ≡ after)

module _ (h : Host) where
  open h use {World}

  configure-HasJustAnswered :
      (reader : Idt85Reader) (w : World) (c : Connection)
      → (configure h reader w).0 ≡ ok c
      → c.state ≡ ready
      → HasJustAnswered h reader (configure h reader w).1
  unfolding configure refuse accept
  configure-HasJustAnswered reader w c e s =
      ((set_answer_mode h reader w).1, ground arith, ground arith)

  negotiate-cases :
      (auto_configure : Bool) (reader : Idt85Reader) (w : World) (c : Connection)
      → (negotiate h auto_configure reader w).0 ≡ ok c
      → c.state ≡ ready
      → (((get_work_mode h reader (verify_reader h reader w).1).0 ≡ ok (some answer_mode))
          × ((get_work_mode h reader (verify_reader h reader w).1).1
              ≡ (negotiate h auto_configure reader w).1))
        ⊎ (((configure h reader (get_work_mode h reader (verify_reader h reader w).1).1).0 ≡ ok c)
            × ((configure h reader (get_work_mode h reader (verify_reader h reader w).1).1).1
                ≡ (negotiate h auto_configure reader w).1))
  unfolding negotiate refuse accept
  negotiate-cases auto_configure reader w c e s = ground arith

  negotiate-HasJustAnswered :
      (auto_configure : Bool) (reader : Idt85Reader) (w : World) (c : Connection)
      → (negotiate h auto_configure reader w).0 ≡ ok c
      → c.state ≡ ready
      → HasJustAnswered h reader (negotiate h auto_configure reader w).1
  negotiate-HasJustAnswered auto_configure reader w c e s =
      elim (negotiate-cases auto_configure reader w c e s) [
        | inl (answered, same) ↦ ((verify_reader h reader w).1, answered, same)
        | inr (configured, same) ↦
            subst (HasJustAnswered h reader) same
              (configure-HasJustAnswered reader _ c configured s)
      ]

  settle-HasJustAnswered :
      (reader : Idt85Reader) (result : Outcome Connection × World)
      → ((c : Connection) → result.0 ≡ ok c → c.state ≡ ready → HasJustAnswered h reader result.1)
      → (settle h reader result).0.state ≡ ready
      → HasJustAnswered h reader (settle h reader result).1
  unfolding settle abandon
  settle-HasJustAnswered reader (ok c, w) answered s = answered c refl s
  settle-HasJustAnswered reader (raised e, w) answered s = cc

  connect_opened-HasJustAnswered :
      (auto_configure : Bool) (reader : Idt85Reader) (opened : Outcome Idt85Reader × World)
      → (connect_opened h auto_configure reader opened).0.state ≡ ready
      → (r : Idt85Reader) × (opened.0 ≡ ok r)
        × HasJustAnswered h r (connect_opened h auto_configure reader opened).1
  unfolding connect_opened abandon
  connect_opened-HasJustAnswered auto_configure reader (ok r, w) s =
      (r, refl, settle-HasJustAnswered r _ (negotiate-HasJustAnswered auto_configure r w) s)
  connect_opened-HasJustAnswered auto_configure reader (raised e, w) s = cc

  -- If connecting returns READY, the port was opened and the last exchange with the reader was a
  -- query of its work mode that it answered with ANSWER: the outside world is as that query left it.
  pub connect_and_verify_reader-HasJustAnswered :
      (reader : Idt85Reader) (auto_configure : Bool) (w : World)
      → (connect_and_verify_reader h reader auto_configure w).0.state ≡ ready
      → (r : Idt85Reader) × ((open_port h reader w).0 ≡ ok r)
        × HasJustAnswered h r (connect_and_verify_reader h reader auto_configure w).1
  unfolding connect_and_verify_reader
  connect_and_verify_reader-HasJustAnswered reader auto_configure w s =
      connect_opened-HasJustAnswered auto_configure reader (open_port h reader w) s
