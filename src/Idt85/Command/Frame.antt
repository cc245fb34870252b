-- ===== src/Idt85/Command/Frame.antt =====
-- What `make_command` of src/mvd_edge/adapters/idt85.py puts on the line.
use mvd_edge_agent.Prelude.{
  ℕ, ◌+◌, ◌/◌, ◌%◌, ◌^◌, ◌≤◌, ◌<◌, ◌≡◌, ◌∙◌, true, List, [], ◌∷◌, ◌++◌, arith, length,
  length-append, get_or, All-append, codes, take, take-length_append, ap,
}
use mvd_edge_agent.Outcome.{ok, raised, value_error}
use mvd_edge_agent.Idt85.Crc.{crc16, has_valid_crc, IsByte, AreBytes}
use mvd_edge_agent.Idt85.Crc.Residue.{has_valid_crc_iff, residue-zero_iff}
use mvd_edge_agent.Idt85.Command.{make_command}

crc16-lt : (xs : List ℕ) → crc16 xs < 2 ^ 16
unfolding crc16
crc16-lt xs = omega arith

-- The bytes before the trailer.
abbrev pub command_body : ℕ → ℕ → List ℕ → List ℕ
command_body address command params = (1 + 1 + length params + 2) ∷ address ∷ command ∷ params

abbrev pub command_frame : ℕ → ℕ → List ℕ → List ℕ
command_frame address command params =
    command_body address command params
    ++ (crc16 (command_body address command params) % 256)
      ∷ (crc16 (command_body address command params) / 256 % 256)
      ∷ []

pub make_command-eq_ok :
    (address command : ℕ) (params : List ℕ)
    → IsByte address
    → IsByte command
    → length params ≤ 251
    → make_command address command params ≡ ok (command_frame address command params)
unfolding make_command
make_command-eq_ok address command params ha hc hl = ground arith

command_body-AreBytes :
    (address command : ℕ) (params : List ℕ)
    → IsByte address
    → IsByte command
    → AreBytes params
    → length params ≤ 251
    → AreBytes (command_body address command params)
command_body-AreBytes address command params ha hc hp hl = (omega arith, (ha, (hc, hp)))

command_frame-has_valid_crc :
    (address command : ℕ) (params : List ℕ)
    → IsByte address
    → IsByte command
    → AreBytes params
    → length params ≤ 251
    → has_valid_crc (command_frame address command params) ≡ true
command_frame-has_valid_crc address command params ha hc hp hl =
    (has_valid_crc_iff (command_frame address command params) bytes long).1 (
      (residue-zero_iff body (crc16 body % 256) (crc16 body / 256 % 256) hb (omega arith)
          (omega arith)).1
        (omega (arith, crc16-lt body)))
  where
    body : List ℕ
    body = command_body address command params

    hb : AreBytes body
    hb = command_body-AreBytes address command params ha hc hp hl

    bytes : AreBytes (command_frame address command params)
    bytes = All-append IsByte body _ hb (omega arith)

    long : 3 ≤ length (command_frame address command params)
    long = omega (arith, length-append body ((crc16 body % 256) ∷ (crc16 body / 256 % 256) ∷ []))

-- For an address and a command that are bytes and at most 251 bytes of parameters, a command is
-- built; its first byte counts the bytes that follow it, the address, the command and the
-- parameters come next, then two bytes with which it passes the checksum test.
pub make_command_lem :
    (address command : ℕ) (params : List ℕ)
    → IsByte address
    → IsByte command
    → AreBytes params
    → length params ≤ 251
    → (frame : List ℕ) × (make_command address command params ≡ ok frame)
      × (length frame ≡ get_or frame 0 0 + 1)
      × (take (length params + 3) frame ≡ (length params + 4) ∷ address ∷ command ∷ params)
      × (has_valid_crc frame ≡ true)
make_command_lem address command params ha hc hp hl = (
  command_frame address command params,
  make_command-eq_ok address command params ha hc hl,
  omega (arith, length-append params (crc16 body % 256 ∷ crc16 body / 256 % 256 ∷ [])),
  ap (λ (n : ℕ). take n (command_frame address command params)) three
      ∙ take-length_append body _
      ∙ ap (λ (n : ℕ). n ∷ address ∷ command ∷ params) (omega arith),
  command_frame-has_valid_crc address command params ha hc hp hl,
)
  where
    body : List ℕ
    body = command_body address command params

    three : length params + 3 ≡ length body
    three = omega arith

-- An address that is no byte is refused as Python's `bytes` refuses it.
pub make_command-bad_address :
    (address command : ℕ) (params : List ℕ)
    → 256 ≤ address
    → make_command address command params
      ≡ raised (value_error (codes "bytes must be in range(0, 256)"))
unfolding make_command
make_command-bad_address address command params h = ground arith
