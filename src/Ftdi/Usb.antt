-- ===== src/Ftdi/Usb.antt =====
-- lib/go/transport_ftdi.go: `connect`, over the USB library gousb, and the handles that it holds.
pub mod Handles
pub mod Outcomes
use qdp.Base.{
  ℕ, ◌+◌, ◌*◌, ◌%◌, ◌^◌, ◌==◌, bit_or, if◌then◌else◌, List, [], ◌∷◌, Bool, true, false, Option,
  none, some,
}
use qdp.Ftdi.Config.{FtdiConfig}
use qdp.Ftdi.Endpoint.{Transfer}
use qdp.Ftdi.Writing.{Sent}
use qdp.Ftdi.Baud.{calculate_ftdi_baud_rate_divisor}

-- What a connection opens, with the number of the connection.
pub data Handle : Type 0 where
  usb_context usb_device usb_config usb_interface : ℕ → Handle

unfoldable pub handle_eq : Handle → Handle → Bool
handle_eq (usb_context a) (usb_context b) = a == b
handle_eq (usb_device a) (usb_device b) = a == b
handle_eq (usb_config a) (usb_config b) = a == b
handle_eq (usb_interface a) (usb_interface b) = a == b
handle_eq g h = false

-- The calls of Close, on the list of the handles that are open, which is those not given to Close.
unfoldable pub close_handle : Handle → List Handle → List Handle
close_handle h [] = []
close_handle h (g ∷ live) = if handle_eq g h then live else g ∷ close_handle h live

pub close_handles : List Handle → List Handle → List Handle
close_handles [] live = live
close_handles (h ∷ hs) live = close_handles hs (close_handle h live)

-- OpenDeviceWithVIDPID, and InEndpoint or OutEndpoint, whose result may be nil without an error.
pub data Opened : Type 0 where
  opened no_device : Opened
  open_error : ℕ → Opened

pub data Found : Type 0 where
  found nil_endpoint : Found
  endpoint_error : ℕ → Found

-- What the USB library does in one connection: its answers by the arguments of the calls, with an
-- error by a number, and how the two endpoints behave.
pub record Bus : Type 0 where
  pub open_device_with_vid_pid : ℕ → ℕ → Opened
  pub set_auto_detach : Option ℕ
  pub config : ℕ → Option ℕ
  pub claim_interface : ℕ → ℕ → Option ℕ
  pub in_endpoint : ℕ → Found
  pub out_endpoint : ℕ → Found
  pub control : ℕ → ℕ → ℕ → ℕ → Option ℕ
  pub packets : ℕ → Transfer
  pub send : ℕ → List ℕ → Sent

pub data ConnectError : Type 0 where
  context_is_nil device_not_found endpoints_invalid : ConnectError
  open_failed detach_failed config_failed interface_failed : ℕ → ConnectError
  in_endpoint_failed out_endpoint_failed : ℕ → ConnectError
  baud_rate_failed line_properties_failed flow_control_failed : ℕ → ConnectError

-- A part of `connect`, on the handles that are open.
abbrev pub Attempt : Type 0
Attempt = List Handle → Option ConnectError × List Handle

unfoldable pub and_then :
    Option ConnectError × List Handle → Attempt → Option ConnectError × List Handle
and_then (some e, live) next = (some e, live)
and_then (none, live) next = next live

infixl 5 ◌>>◌
abbrev pub ◌>>◌ : Attempt → Attempt → Attempt
◌>>◌ first second live = and_then (first live) second

unfoldable pub acquire : Handle → Attempt
acquire h live = (none, h ∷ live)

-- `if err != nil { ...Close(); return fmt.Errorf(...) }`
unfoldable pub require : Option ℕ → (ℕ → ConnectError) → List Handle → Attempt
require none wrap hs live = (none, live)
require (some e) wrap hs live = (some (wrap e), close_handles hs live)

unfoldable pub open_device : Opened → ℕ → Attempt
open_device (open_error e) c live = (some (open_failed e), close_handle (usb_context c) live)
open_device no_device c live = (some device_not_found, close_handle (usb_context c) live)
open_device opened c live = (none, usb_device c ∷ live)

-- The error of an endpoint, and whether one is nil.
abbrev pub error_of : Found → Option ℕ
error_of (endpoint_error e) = some e
error_of found = none
error_of nil_endpoint = none

unfoldable pub require_valid : Found → Found → List Handle → Attempt
require_valid nil_endpoint b hs live = (some endpoints_invalid, close_handles hs live)
require_valid found nil_endpoint hs live = (some endpoints_invalid, close_handles hs live)
require_valid found found hs live = (none, live)
require_valid found (endpoint_error e) hs live = (none, live)
require_valid (endpoint_error e) b hs live = (none, live)

-- uint16(v)
abbrev pub u16 : ℕ → ℕ
u16 v = v % 2 ^ 16

pub line_params : FtdiConfig → ℕ
line_params config =
    bit_or (bit_or (u16 config.data_bits) (u16 (u16 config.stop_bits * 2 ^ 11)))
      (u16 (u16 config.parity * 2 ^ 8))

unfoldable pub configure_uart : FtdiConfig → Bus → ℕ → Attempt
configure_uart config bus c = do
  require
      (bus.control 0x40 0x03 (calculate_ftdi_baud_rate_divisor config.baud_rate).0
        (calculate_ftdi_baud_rate_divisor config.baud_rate).1)
      baud_rate_failed (usb_device c ∷ usb_context c ∷ [])
  require (bus.control 0x40 0x04 (line_params config) 0) line_properties_failed
      (usb_device c ∷ usb_context c ∷ [])
  require (bus.control 0x40 0x02 (u16 config.flow_control) 0) flow_control_failed
      (usb_device c ∷ usb_context c ∷ [])

-- `connect` as far as the USB goes, with the context `c`.
unfoldable pub open_usb : FtdiConfig → Bus → ℕ → Attempt
open_usb config bus c = do
  open_device (bus.open_device_with_vid_pid config.vid config.pid) c
  require bus.set_auto_detach detach_failed (usb_device c ∷ usb_context c ∷ [])
  require (bus.config 1) config_failed (usb_device c ∷ usb_context c ∷ [])
  acquire (usb_config c)
  require (bus.claim_interface config.interface 0) interface_failed
      (usb_config c ∷ usb_device c ∷ usb_context c ∷ [])
  acquire (usb_interface c)
  require (error_of (bus.in_endpoint config.read_ep)) in_endpoint_failed
      (usb_interface c ∷ usb_config c ∷ usb_device c ∷ usb_context c ∷ [])
  require (error_of (bus.out_endpoint config.write_ep)) out_endpoint_failed
      (usb_interface c ∷ usb_config c ∷ usb_device c ∷ usb_context c ∷ [])
  require_valid (bus.in_endpoint config.read_ep) (bus.out_endpoint config.write_ep)
      (usb_interface c ∷ usb_config c ∷ usb_device c ∷ usb_context c ∷ [])
  configure_uart config bus c

-- The context may be nil.
unfoldable pub connect_usb : FtdiConfig → Bus → Option ℕ → Attempt
connect_usb config bus none live = (some context_is_nil, live)
connect_usb config bus (some c) live = open_usb config bus c live
