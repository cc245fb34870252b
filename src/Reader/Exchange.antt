-- ===== src/Reader/Exchange.antt =====
-- What the exchanges with the reader leave true of the outside world, given that the serial calls
-- they make do (src/mvd_edge/adapters/idt85.py).
use mvd_edge_agent.Prelude.{List, [], ◌∷◌, ℕ, arith}
use mvd_edge_agent.Host.{Host}
use mvd_edge_agent.Idt85.Device.{Idt85Reader}
use mvd_edge_agent.Reader.{
  read_rest, send_command, get_reader_info, verify_by_work_mode, verify_reader, get_work_mode,
}

module _ (h : Host) (I : h.World → Type 0) where
  open h use {World, sleep, serial_open, serial_close, serial_write, serial_read}

  abbrev pub IsWritable : List ℕ → Type 0
  IsWritable command = (w : World) → I w → I (serial_write command w).1

  module _ (keeps_sleep : (duration : ℕ) (w : World) → I w → I (sleep duration w))
      (keeps_read : (size : ℕ) (w : World) → I w → I (serial_read size w).1) where
    read_rest-Keeps : (first : List ℕ) (w : World) → I w → I (read_rest h first w).1
    unfolding read_rest
    read_rest-Keeps [] w i = i
    read_rest-Keeps (count ∷ others) w i = grind (arith, keeps_read)

    pub send_command-Keeps :
        (reader : Idt85Reader) (command : List ℕ) (w : World)
        → IsWritable command
        → I w
        → I (send_command h reader command w).1
    unfolding send_command
    send_command-Keeps reader command w keeps_write i =
        grind (arith, keeps_write, keeps_read, keeps_sleep, read_rest-Keeps)

    pub get_work_mode-Keeps :
        (reader : Idt85Reader) (w : World)
        → IsWritable reader.get_work_mode_bytes
        → I w
        → I (get_work_mode h reader w).1
    unfolding get_work_mode
    get_work_mode-Keeps reader w keeps_mode i = grind (arith, send_command-Keeps, keeps_mode)

    verify_by_work_mode-Keeps :
        (reader : Idt85Reader) (w : World)
        → IsWritable reader.get_work_mode_bytes
        → I w
        → I (verify_by_work_mode h reader w).1
    unfolding verify_by_work_mode
    verify_by_work_mode-Keeps reader w keeps_mode i = grind (arith, send_command-Keeps, keeps_mode)

    pub verify_reader-Keeps :
        (reader : Idt85Reader) (w : World)
        → IsWritable reader.reader_info_bytes
        → IsWritable reader.get_work_mode_bytes
        → I w
        → I (verify_reader h reader w).1
    unfolding verify_reader get_reader_info
    verify_reader-Keeps reader w keeps_info keeps_mode i =
        grind (arith, send_command-Keeps, verify_by_work_mode-Keeps, keeps_info, keeps_mode)
