-- ===== src/Ftdi/Transport/Resources.antt =====
-- lib/go/transport_ftdi.go: the handles that are open after a reconnection.
use qdp.Base.{
  choose, arith, ℕ, zero, suc, ◌+◌, Bool, true, false, if◌then◌else◌, ◌≡◌, refl, sym, ap, subst,
  ◌∙◌, List, [], ◌∷◌, ◌++◌, All, All-append, Option, none, some,
}
use qdp.Ftdi.Config.{FtdiConfig}
use qdp.Ftdi.Usb.{
  Handle, usb_context, usb_device, usb_config, usb_interface, handle_eq, close_handle, Bus,
  ConnectError, connect_usb, open_usb, context_is_nil, device_not_found, endpoints_invalid,
  open_failed, detach_failed, config_failed, interface_failed, in_endpoint_failed,
  out_endpoint_failed, baud_rate_failed, line_properties_failed, flow_control_failed,
}
use qdp.Ftdi.Usb.Outcomes.{open_usb_same}
use qdp.Ftdi.Usb.Handles.{own, leak, Leaves, close-own, open_usb-Leaves}
use qdp.Ftdi.Transport.{
  FtdiTransport, notice, after_connect, connect, close_held, close_resources, close_failed,
  try_reconnect,
}

-- What a failed connection leaves open is an interface or a configuration.
abbrev pub IsLeak : Handle → Type 0
IsLeak (usb_interface n) = Unit {0}
IsLeak (usb_config n) = Unit {0}
IsLeak (usb_device n) = ⊥
IsLeak (usb_context n) = ⊥

abbrev pub held : Option ℕ → List Handle
held none = []
held (some c) = own c

abbrev pub left_by_error : ℕ → Option ConnectError → List Handle
left_by_error c none = []
left_by_error c (some e) = leak c e

-- What the first `n` connections have left, each by its own outcome: nothing if it succeeded.
abbrev pub left_by : FtdiConfig → (ℕ → Bus) → ℕ → List Handle
left_by config usb zero = []
left_by config usb (suc n) =
    left_by_error n (open_usb config (usb n) n []).0 ++ left_by config usb n

-- The open handles are those that the transport holds, and what failed connections have left.
pub record IsAccounted (config : FtdiConfig) (usb : ℕ → Bus) (t : FtdiTransport) : Type 0 where
  pub config_same : t.config ≡ config
  pub account : t.live ≡ held t.resources ++ left_by config usb t.attempts

one_more : (n : ℕ) → suc n ≡ n + 1
one_more n = omega arith

leak-IsLeak : (c : ℕ) (e : ConnectError) → All IsLeak (leak c e)
leak-IsLeak c context_is_nil = tt
leak-IsLeak c device_not_found = tt
leak-IsLeak c endpoints_invalid = tt
leak-IsLeak c (open_failed e) = tt
leak-IsLeak c (detach_failed e) = tt
leak-IsLeak c (config_failed e) = tt
leak-IsLeak c (interface_failed e) = tt
leak-IsLeak c (in_endpoint_failed e) = tt
leak-IsLeak c (out_endpoint_failed e) = tt
leak-IsLeak c (baud_rate_failed e) = (tt, (tt, tt))
leak-IsLeak c (line_properties_failed e) = (tt, (tt, tt))
leak-IsLeak c (flow_control_failed e) = (tt, (tt, tt))

close_handle-leaks :
    (c : ℕ) (hs : List Handle) → All IsLeak hs → close_handle (usb_context c) hs ≡ hs
unfolding close_handle handle_eq
close_handle-leaks c [] l = refl
close_handle-leaks c (usb_interface n ∷ hs) l =
    ap (λ t. usb_interface n ∷ t) (close_handle-leaks c hs l.1)
close_handle-leaks c (usb_config n ∷ hs) l =
    ap (λ t. usb_config n ∷ t) (close_handle-leaks c hs l.1)
close_handle-leaks c (usb_device n ∷ hs) l = absurd l.0
close_handle-leaks c (usb_context n ∷ hs) l = absurd l.0

left_by-IsLeak : (config : FtdiConfig) (usb : ℕ → Bus) (n : ℕ) → All IsLeak (left_by config usb n)
left_by-IsLeak config usb zero = tt
left_by-IsLeak config usb (suc n) =
    All-append IsLeak (left_by_error n (open_usb config (usb n) n []).0) (left_by config usb n)
      (left (open_usb config (usb n) n []).0) (left_by-IsLeak config usb n)
  where
    left : (o : Option ConnectError) → All IsLeak (left_by_error n o)
    left none = tt
    left (some e) = leak-IsLeak n e

-- The open handles and those that the transport holds are not changed.
abbrev pub SameHandles : FtdiTransport → FtdiTransport → Type 0
SameHandles t t' =
    (t'.live ≡ t.live)
    × (t'.resources ≡ t.resources)
    × (t'.attempts ≡ t.attempts)
    × (t'.config ≡ t.config)

module _ (config : FtdiConfig) (usb : ℕ → Bus) where
  pub same-IsAccounted :
      {t t' : FtdiTransport}
      → SameHandles t t'
      → IsAccounted config usb t
      → IsAccounted config usb t'
  same-IsAccounted {t = t} {t' = t'} (live_same, held_same, count_same, same) v = record {
    config_same = same ∙ v.config_same;
    account =
        live_same
        ∙ v.account
        ∙ ap (λ r. held r ++ left_by config usb t.attempts) (sym held_same)
        ∙ ap (λ n. held t'.resources ++ left_by config usb n) (sym count_same);
  }

  pub close_resources-IsAccounted :
      (t : FtdiTransport) → IsAccounted config usb t → IsAccounted config usb (close_resources t)
  unfolding close_resources
  close_resources-IsAccounted t v = record {
    config_same = v.config_same;
    account = ap (close_held t.resources) v.account ∙ closed t.resources;
  }
    where
      closed :
          (r : Option ℕ)
          → close_held r (held r ++ left_by config usb t.attempts) ≡ left_by config usb t.attempts
      closed none = unfold close_held in refl
      closed (some c) = unfold close_held in close-own c (left_by config usb t.attempts)

  -- A connection, from a transport that holds none, after which a failed context may be closed again.
  pub after_connect-IsAccounted :
      (again : Bool) (t : FtdiTransport) (o : Option ConnectError × List Handle)
      → IsAccounted config usb t
      → t.resources ≡ none
      → o.0 ≡ (open_usb config (usb t.attempts) t.attempts []).0
      → Leaves t.attempts (left_by config usb t.attempts) o
      → IsAccounted config usb
          (if again then (close_failed t.attempts (after_connect o t)).1 else (after_connect o t).1)
  unfolding after_connect close_failed Leaves notice
  after_connect-IsAccounted again t (some e, live) v free same left =
      elim again
        as (λ b. IsAccounted config usb (
          if b
          then record t {
            attempts = t.attempts + 1;
            live = close_handle (usb_context t.attempts) live;
          }
          else record t { attempts = t.attempts + 1; live = live })) [
            | true ↦ record {
              config_same = v.config_same;
              account =
                  ap (close_handle (usb_context t.attempts)) all
                  ∙ close_handle-leaks t.attempts (left_by config usb (t.attempts + 1))
                      (left_by-IsLeak config usb (t.attempts + 1))
                  ∙ ap (λ r. held r ++ left_by config usb (t.attempts + 1)) (sym free);
            }
            | false ↦ record {
              config_same = v.config_same;
              account = all ∙ ap (λ r. held r ++ left_by config usb (t.attempts + 1)) (sym free);
            }
          ]
    where
      all : live ≡ left_by config usb (t.attempts + 1)
      all =
          left
          ∙ ap (λ o. left_by_error t.attempts o ++ left_by config usb t.attempts) same
          ∙ ap (left_by config usb) (one_more t.attempts)
  after_connect-IsAccounted again t (none, live) v free same left =
      choose (IsAccounted config usb) again (record { config_same = v.config_same; account = all })
        (record { config_same = v.config_same; account = all })
    where
      all : live ≡ own t.attempts ++ left_by config usb (t.attempts + 1)
      all =
          left
          ∙ ap
              (λ o. own t.attempts ++ (left_by_error t.attempts o ++ left_by config usb t.attempts))
              same
          ∙ ap (λ n. own t.attempts ++ left_by config usb n) (one_more t.attempts)

  connected :
      (again : Bool) (t : FtdiTransport)
      → IsAccounted config usb t
      → t.resources ≡ none
      → IsAccounted config usb
          (if again then (close_failed t.attempts (connect usb t)).1 else (connect usb t).1)
  unfolding connect connect_usb
  connected again t v free =
      let bus = usb t.attempts in
      let n = t.attempts in
      after_connect-IsAccounted again t (open_usb t.config bus n (usb_context n ∷ t.live)) v free
        (ap (λ k. (open_usb k bus n (usb_context n ∷ t.live)).0) v.config_same
          ∙ open_usb_same config bus n (usb_context n ∷ t.live) [])
        (subst
          (λ live. Leaves n (left_by config usb n) (open_usb t.config bus n (usb_context n ∷ live)))
          (sym (v.account ∙ ap (λ r. held r ++ left_by config usb n) free))
          (open_usb-Leaves n (left_by config usb n) t.config bus))

  pub try_reconnect-IsAccounted :
      (t : FtdiTransport)
      → IsAccounted config usb t
      → IsAccounted config usb (try_reconnect usb t).1
  unfolding try_reconnect close_resources
  try_reconnect-IsAccounted t v =
      connected true (close_resources t) (close_resources-IsAccounted t v) (refl)

  -- The first connection.
  pub connect-IsAccounted :
      (t : FtdiTransport)
      → IsAccounted config usb t
      → t.resources ≡ none
      → IsAccounted config usb (connect usb t).1
  connect-IsAccounted t v free = connected false t v free
