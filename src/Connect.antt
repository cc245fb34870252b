-- ===== src/Connect.antt =====
-- Connecting to the reader (`connect_and_verify_reader` of src/mvd_edge/app.py).
pub mod Port
pub mod Mode
use mvd_edge_agent.Prelude.{
  ℕ, Bool, true, false, not, Option, none, some, List, [], ◌∷◌, ◌++◌, ◌==◌, if◌then◌else◌, Text,
  codes,
}
use mvd_edge_agent.Outcome.{Outcome, ok, raised, message}
use mvd_edge_agent.Io.{Io, pure, ◌>>=◌, ◌>>◌}
use mvd_edge_agent.Host.{Host}
use mvd_edge_agent.Idt85.Command.{answer_mode, format_work_mode}
use mvd_edge_agent.Idt85.Device.{Idt85Reader}
use mvd_edge_agent.Reader.{open_port, close_port, verify_reader, get_work_mode, set_answer_mode}
use mvd_edge_agent.Health.{ReaderState, disconnected, ready, config_error}

-- The result of a connection, with the reader object after it.
pub record Connection : Type 0 where
  pub state : ReaderState
  pub message : Text
  pub reader : Idt85Reader

-- `work_mode == ANSWER_MODE`
abbrev pub is_answer : Option ℕ → Bool
is_answer none = false
is_answer (some mode) = mode == answer_mode

module _ (h : Host) where
  open h use {World}

  -- `reader.close()` and the return of a configuration error.
  unfoldable pub refuse : Idt85Reader → Text → Io World Connection
  refuse reader why w =
      let (closed, w') = close_port h reader w in
      (ok (record { state = config_error; message = why; reader = closed }), w')

  -- The return of a reader that is ready; `apply_installation_profile` sends nothing.
  unfoldable pub accept : Idt85Reader → Io World Connection
  accept reader =
      pure (record { state = ready; message = codes "Communication verified"; reader = reader })

  -- The switch to answer mode, and the second look at the mode.
  unfoldable pub configure : Idt85Reader → Io World Connection
  configure reader = do
    done ← set_answer_mode h reader
    if not done then refuse reader (codes "Unable to set reader work mode to ANSWER") else do
      verified_mode ← get_work_mode h reader
      if not (is_answer verified_mode)
          then refuse reader (
              codes "Reader Work Mode after configuration: "
              ++ (format_work_mode verified_mode ++ codes "; Required: ANSWER"))
          else accept reader

  unfoldable pub negotiate : Bool → Idt85Reader → Io World Connection
  negotiate auto_configure reader = do
    verified ← verify_reader h reader
    if not verified then refuse reader (codes "Reader communication failed verification") else do
      work_mode ← get_work_mode h reader
      if is_answer work_mode
          then accept reader
          else if not auto_configure
          then refuse reader (
              codes "Reader Work Mode: "
              ++ (format_work_mode work_mode ++ codes "; Required: ANSWER"))
          else configure reader

  -- `except Exception`: the port is closed, whatever raised.
  unfoldable pub abandon : Idt85Reader → Text → World → Connection × World
  abandon reader why w =
      let (closed, w') = close_port h reader w in
      (record { state = disconnected; message = why; reader = closed }, w')

  unfoldable pub settle : Idt85Reader → Outcome Connection × World → Connection × World
  settle reader (ok connection, w) = (connection, w)
  settle reader (raised e, w) = abandon reader (message e) w

  unfoldable pub connect_opened :
      Bool → Idt85Reader → Outcome Idt85Reader × World → Connection × World
  unfolding abandon settle
  connect_opened auto_configure reader (raised e, w) = abandon reader (message e) w
  connect_opened auto_configure reader (ok opened, w) =
      settle opened (negotiate auto_configure opened w)

  unfoldable pub connect_and_verify_reader : Idt85Reader → Bool → World → Connection × World
  unfolding connect_opened
  connect_and_verify_reader reader auto_configure w =
      connect_opened auto_configure reader (open_port h reader w)
