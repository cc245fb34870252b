-- ===== src/Network/Lines.antt =====
-- The lines of `nmcli` on the devices are read (src/mvd_edge/health/network.py).
use mathlib.Core.Path.{subst}
use mvd_edge_agent.Prelude.{
  ◌≡◌, ◌⊎◌, inl, inr, refl, ap, sym, ◌∙◌, false, some, map, List, [], ◌∷◌, ◌++◌, arith, Text, codes,
  text_eq, text_eq_iff, All, All-append, strip, has_ink-append, has_ink-strip, if◌then◌else◌,
}
use mvd_edge_agent.Prelude.Splits.{
  lines_from, split_max, split_max-zero, split_max-append, splitlines-append, Lacks, IsLine,
  is_break,
}
use mvd_edge_agent.Network.Output.{
  NetworkDevice, device_of_line, devices_of_lines, is_blank, parse_nmcli_devices,
}

-- What the documentation of `nmcli -t` says of the text that a value is printed as, and of what stands
-- for a missing one: a value without a colon and a backslash is printed as it is, and one on a single
-- line on a single line; a missing one is left out or printed as `--`.
pub record IsTerse (terse : Text → Text) (absent : Text) : Type 0 where
  pub plain : (t : Text) → Lacks b':' t → Lacks 0x5C t → terse t ≡ t
  pub on_a_line : (t : Text) → IsLine t → IsLine (terse t)
  pub missing : (absent ≡ []) ⊎ (absent ≡ codes "--")

-- A field and what follows it.
abbrev before_colon : Text → Text → Text
before_colon field rest = field ++ (b':' ∷ rest)

IsLine-colon : (s t : Text) → IsLine s → IsLine t → IsLine (before_colon s t)
IsLine-colon s t hs ht = All-append (λ c. is_break c ≡ false) s (b':' ∷ t) hs (refl, ht)

is_blank-colon : (s t : Text) → is_blank (before_colon s t) ≡ false
is_blank-colon s t = ground (
  arith,
  has_ink-strip (s ++ b':' ∷ t),
  has_ink-append s (b':' ∷ t),
  text_eq_iff (strip (s ++ b':' ∷ t)) [],
)

module _ (terse : Text → Text) (absent : Text) where
  -- What stands for the name of a connection.
  abbrev shown : Text → Text
  shown [] = absent
  shown (c ∷ t) = terse (c ∷ t)

  -- The line of a device in `nmcli -t -f DEVICE,TYPE,STATE,CONNECTION`.
  abbrev line_of : NetworkDevice → Text
  line_of d =
      before_colon (terse d.interface)
        (before_colon (terse d.kind) (before_colon (terse d.state) (shown d.connection)))

  -- The whole output, a line for each device.
  abbrev pub printed : List NetworkDevice → Text
  printed [] = []
  printed (d ∷ ds) = line_of d ++ 10 ∷ printed ds

  -- The name of a connection as it is printed.
  abbrev pub name_read : Text → Text
  name_read [] = []
  name_read (c ∷ t) = terse (c ∷ t)

  -- A device with the name of its connection as it is printed.
  abbrev pub as_read : NetworkDevice → NetworkDevice
  as_read d = record d { connection = name_read d.connection }

  -- A device whose line can be read: no line break in it, no colon and no backslash in its first three
  -- fields, and no connection that is printed as `--`.
  pub record IsPrintable (d : NetworkDevice) : Type 0 where
    pub interface_line : IsLine d.interface
    pub kind_line : IsLine d.kind
    pub state_line : IsLine d.state
    pub connection_line : IsLine d.connection
    pub interface_plain : Lacks b':' d.interface × Lacks 0x5C d.interface
    pub kind_plain : Lacks b':' d.kind × Lacks 0x5C d.kind
    pub state_plain : Lacks b':' d.state × Lacks 0x5C d.state
    pub named : text_eq (terse d.connection) (codes "--") ≡ false

  module _ (nmcli : IsTerse terse absent) where
    absent-IsLine : (t : Text) → (t ≡ []) ⊎ (t ≡ codes "--") → IsLine t
    absent-IsLine t (inl e) = subst IsLine (sym e) tt
    absent-IsLine t (inr e) = subst IsLine (sym e) (refl, (refl, tt))

    shown-IsLine : (t : Text) → IsLine t → IsLine (shown t)
    shown-IsLine [] is_line = absent-IsLine absent nmcli.missing
    shown-IsLine (c ∷ t) is_line = nmcli.on_a_line (c ∷ t) is_line

    line_of-IsLine : (d : NetworkDevice) → IsPrintable d → IsLine (line_of d)
    line_of-IsLine d p =
        IsLine-colon (terse d.interface) _ (nmcli.on_a_line d.interface p.interface_line) (
          IsLine-colon (terse d.kind) _ (nmcli.on_a_line d.kind p.kind_line) (
            IsLine-colon (terse d.state) _ (nmcli.on_a_line d.state p.state_line)
              (shown-IsLine d.connection p.connection_line)))

    -- A missing name is read as the empty text.
    unshown_absent :
        (t : Text) → (t ≡ []) ⊎ (t ≡ codes "--") → (if text_eq t (codes "--") then [] else t) ≡ []
    unfolding text_eq
    unshown_absent t (inl e) = rw e refl
    unshown_absent t (inr e) = rw e refl

    unshown :
        (t : Text)
        → text_eq (terse t) (codes "--") ≡ false
        → (if text_eq (shown t) (codes "--") then [] else shown t) ≡ name_read t
    unshown [] named = unshown_absent absent nmcli.missing
    unshown (c ∷ t) named = rw named refl

    line_of-parts :
        (d : NetworkDevice)
        → IsPrintable d
        → split_max b':' 3 (line_of d) ≡ d.interface ∷ d.kind ∷ d.state ∷ shown d.connection ∷ []
    line_of-parts d p =
        rw
          (
            nmcli.plain d.interface p.interface_plain.0 p.interface_plain.1,
            nmcli.plain d.kind p.kind_plain.0 p.kind_plain.1,
            nmcli.plain d.state p.state_plain.0 p.state_plain.1,
          )
          (split_max-append b':' 2 d.interface
              (before_colon d.kind (before_colon d.state (shown d.connection))) p.interface_plain.0
            ∙ ap (λ (parts : List Text). d.interface ∷ parts)
                (split_max-append b':' 1 d.kind (before_colon d.state (shown d.connection))
                  p.kind_plain.0)
            ∙ ap (λ (parts : List Text). d.interface ∷ d.kind ∷ parts)
                (split_max-append b':' 0 d.state (shown d.connection) p.state_plain.0)
            ∙ ap (λ (parts : List Text). d.interface ∷ d.kind ∷ d.state ∷ parts)
                (split_max-zero b':' (shown d.connection)))

    device_of_line-line_of :
        (d : NetworkDevice) → IsPrintable d → device_of_line (line_of d) ≡ some (as_read d)
    device_of_line-line_of d p =
        rw
          (
            is_blank-colon (terse d.interface)
                (before_colon (terse d.kind) (before_colon (terse d.state) (shown d.connection))),
            line_of-parts d p,
            unshown d.connection p.named,
          )
          refl

    -- On lines as the documentation of `nmcli -t` describes them, one for each device, every device is
    -- read, in the order of the lines: its first three fields as they are, and the name of its
    -- connection as it is printed, a missing one as the empty text; where no field has a line break,
    -- the first three have no colon and no backslash, and no connection is printed as `--`.
    pub parse_nmcli_devices-printed :
        (devices : List NetworkDevice)
        → All IsPrintable devices
        → parse_nmcli_devices (printed devices) ≡ map as_read devices
    unfolding parse_nmcli_devices devices_of_lines lines_from
    parse_nmcli_devices-printed [] printable = refl
    parse_nmcli_devices-printed (d ∷ ds) printable = ground (
      arith,
      splitlines-append (line_of d) (printed ds) (line_of-IsLine d printable.0),
      device_of_line-line_of d printable.0,
      parse_nmcli_devices-printed ds printable.1,
    )
