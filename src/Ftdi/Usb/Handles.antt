-- ===== src/Ftdi/Usb/Handles.antt =====
-- lib/go/transport_ftdi.go: which handles are open after `connect`.
use qdp.Base.{arith, ℕ, ◌≡◌, refl, List, [], ◌∷◌, ◌++◌, Option, none, some, ==-refl}
use qdp.Ftdi.Config.{FtdiConfig}
use qdp.Ftdi.Usb.{
  Handle, usb_context, usb_device, usb_config, usb_interface, handle_eq, close_handle,
  close_handles, Opened, opened, no_device, open_error, Found, found, nil_endpoint, endpoint_error,
  Bus, ConnectError, detach_failed, config_failed, interface_failed, in_endpoint_failed,
  out_endpoint_failed, baud_rate_failed, line_properties_failed, flow_control_failed, Attempt,
  and_then, configure_uart, open_usb, require, require_valid, u16, error_of, open_device, acquire,
}

-- The handles of a connection.
abbrev pub own : ℕ → List Handle
own c = usb_interface c ∷ usb_config c ∷ usb_device c ∷ usb_context c ∷ []

-- What an error leaves open: the interface and the configuration, if the UART could not be configured.
abbrev pub leak : ℕ → ConnectError → List Handle
leak c (baud_rate_failed e) = usb_interface c ∷ usb_config c ∷ []
leak c (line_properties_failed e) = usb_interface c ∷ usb_config c ∷ []
leak c (flow_control_failed e) = usb_interface c ∷ usb_config c ∷ []
leak c other = []

-- Either all handles of the connection are open, on top of the others, or those that are leaked.
unfoldable pub Leaves : ℕ → List Handle → Option ConnectError × List Handle → Type 0
Leaves c others (none, live) = live ≡ own c ++ others
Leaves c others (some e, live) = live ≡ leak c e ++ others

module _ (c : ℕ) (others : List Handle) where
  close-context : close_handle (usb_context c) (usb_context c ∷ others) ≡ others
  unfolding close_handle handle_eq
  close-context = ground (arith, ==-refl c)

  close-device :
      close_handles (usb_device c ∷ usb_context c ∷ []) (usb_device c ∷ usb_context c ∷ others)
      ≡ others
  unfolding close_handles close_handle handle_eq
  close-device = ground (arith, ==-refl c)

  close-config :
      close_handles
        (usb_config c ∷ usb_device c ∷ usb_context c ∷ [])
        (usb_config c ∷ usb_device c ∷ usb_context c ∷ others)
      ≡ others
  unfolding close_handles close_handle handle_eq
  close-config = ground (arith, ==-refl c)

  pub close-own : close_handles (own c) (own c ++ others) ≡ others
  unfolding close_handles close_handle handle_eq
  close-own = ground (arith, ==-refl c)

  -- Without the interface and the configuration, these stay open.
  close-device_only :
      close_handles (usb_device c ∷ usb_context c ∷ []) (own c ++ others)
      ≡ usb_interface c ∷ usb_config c ∷ others
  unfolding close_handles close_handle handle_eq
  close-device_only = ground (arith, ==-refl c)

  require-Leaves :
      (o : Option ℕ) (wrap : ℕ → ConnectError) (hs live : List Handle) (next : Attempt)
      → ((e : ℕ) → close_handles hs live ≡ leak c (wrap e) ++ others)
      → Leaves c others (next live)
      → Leaves c others (and_then (require o wrap hs live) next)
  unfolding Leaves and_then require open_device require_valid
  require-Leaves none wrap hs live next failing passing = passing
  require-Leaves (some e) wrap hs live next failing passing = failing e

  acquire-Leaves :
      (h : Handle) (live : List Handle) (next : Attempt)
      → Leaves c others (next (h ∷ live))
      → Leaves c others (and_then (acquire h live) next)
  unfolding and_then acquire
  acquire-Leaves h live next passing = passing

  last-Leaves :
      (o : Option ℕ)
      → Leaves c others
          (require o flow_control_failed (usb_device c ∷ usb_context c ∷ []) (own c ++ others))
  unfolding Leaves and_then require open_device require_valid
  last-Leaves none = refl
  last-Leaves (some e) = close-device_only

  configure_uart-Leaves :
      (config : FtdiConfig) (bus : Bus)
      → Leaves c others (configure_uart config bus c (own c ++ others))
  unfolding configure_uart
  configure_uart-Leaves config bus =
      require-Leaves _ baud_rate_failed _ _ _ (λ e. close-device_only)
        (require-Leaves _ line_properties_failed _ _ _ (λ e. close-device_only)
          (last-Leaves (bus.control 0x40 0x02 (u16 config.flow_control) 0)))

  valid-Leaves :
      (a b : Found) (next : Attempt)
      → Leaves c others (next (own c ++ others))
      → Leaves c others (and_then (require_valid a b (own c) (own c ++ others)) next)
  unfolding Leaves and_then require open_device require_valid
  valid-Leaves nil_endpoint b next passing = close-own
  valid-Leaves found nil_endpoint next passing = close-own
  valid-Leaves found found next passing = passing
  valid-Leaves found (endpoint_error e) next passing = passing
  valid-Leaves (endpoint_error e) b next passing = passing

  open_device-Leaves :
      (o : Opened) (next : Attempt)
      → Leaves c others (next (usb_device c ∷ usb_context c ∷ others))
      → Leaves c others (and_then (open_device o c (usb_context c ∷ others)) next)
  unfolding Leaves and_then require open_device require_valid
  open_device-Leaves (open_error e) next passing = close-context
  open_device-Leaves no_device next passing = close-context
  open_device-Leaves opened next passing = passing

  -- `connect` with a new context either succeeds, and then the context, the device, the configuration
  -- and the interface are open, or fails, and then all that it opened is closed, unless the UART could
  -- not be configured: then the interface and the configuration are left open.
  pub open_usb-Leaves :
      (config : FtdiConfig) (bus : Bus)
      → Leaves c others (open_usb config bus c (usb_context c ∷ others))
  unfolding open_usb
  open_usb-Leaves config bus =
      open_device-Leaves (bus.open_device_with_vid_pid config.vid config.pid) _ (
        require-Leaves bus.set_auto_detach detach_failed _ _ _ (λ e. close-device)
          (require-Leaves (bus.config 1) config_failed _ _ _ (λ e. close-device)
            (acquire-Leaves _ _ _ (
              require-Leaves (bus.claim_interface config.interface 0) interface_failed _ _ _
                (λ e. close-config)
                (acquire-Leaves _ _ _ (
                  require-Leaves (error_of (bus.in_endpoint config.read_ep)) in_endpoint_failed _ _
                    _ (λ e. close-own)
                    (require-Leaves (error_of (bus.out_endpoint config.write_ep))
                      out_endpoint_failed _ _ _ (λ e. close-own)
                      (valid-Leaves (bus.in_endpoint config.read_ep)
                        (bus.out_endpoint config.write_ep) _
                        (configure_uart-Leaves config bus)))))))))
