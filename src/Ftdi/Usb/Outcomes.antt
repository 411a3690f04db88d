-- ===== src/Ftdi/Usb/Outcomes.antt =====
-- lib/go/transport_ftdi.go: how `connect` ends does not depend on which handles are open.
use qdp.Base.{ℕ, ◌≡◌, refl, List, Option, none, some}
use qdp.Ftdi.Config.{FtdiConfig}
use qdp.Ftdi.Usb.{
  Handle, Opened, opened, no_device, open_error, Found, found, nil_endpoint, endpoint_error, Bus,
  ConnectError, Attempt, and_then, configure_uart, open_usb, require, require_valid, open_device,
  acquire,
}

-- An attempt that gives the same error, or none, whichever handles are open.
record IsBlind (f : Attempt) : Type 0 where
  pub same : (live live' : List Handle) → (f live).0 ≡ (f live').0

and_then-IsBlind : (f g : Attempt) → IsBlind f → IsBlind g → IsBlind (λ live. and_then (f live) g)
unfolding and_then
and_then-IsBlind f g v w = record {
  same = λ live live'. both (f live) (f live') (v.same live live');
}
  where
    both :
        (o o' : Option ConnectError × List Handle)
        → o.0 ≡ o'.0
        → (and_then o g).0 ≡ (and_then o' g).0
    both (some e, live) (some e', live') same = same
    both (none, live) (none, live') same = w.same live live'
    both (some e, live) (none, live') same = cc
    both (none, live) (some e, live') same = cc

require-IsBlind :
    (o : Option ℕ) (wrap : ℕ → ConnectError) (hs : List Handle) → IsBlind (require o wrap hs)
unfolding require
require-IsBlind none wrap hs = record { same = λ live live'. refl }
require-IsBlind (some e) wrap hs = record { same = λ live live'. refl }

acquire-IsBlind : (h : Handle) → IsBlind (acquire h)
unfolding acquire
acquire-IsBlind h = record { same = λ live live'. refl }

open_device-IsBlind : (o : Opened) (c : ℕ) → IsBlind (open_device o c)
unfolding open_device
open_device-IsBlind (open_error e) c = record { same = λ live live'. refl }
open_device-IsBlind no_device c = record { same = λ live live'. refl }
open_device-IsBlind opened c = record { same = λ live live'. refl }

require_valid-IsBlind : (a b : Found) (hs : List Handle) → IsBlind (require_valid a b hs)
unfolding require_valid
require_valid-IsBlind nil_endpoint b hs = record { same = λ live live'. refl }
require_valid-IsBlind found nil_endpoint hs = record { same = λ live live'. refl }
require_valid-IsBlind found found hs = record { same = λ live live'. refl }
require_valid-IsBlind found (endpoint_error e) hs = record { same = λ live live'. refl }
require_valid-IsBlind (endpoint_error e) b hs = record { same = λ live live'. refl }

configure_uart-IsBlind :
    (config : FtdiConfig) (bus : Bus) (c : ℕ) → IsBlind (configure_uart config bus c)
unfolding configure_uart
configure_uart-IsBlind config bus c =
    and_then-IsBlind _ _ (require-IsBlind _ _ _)
      (and_then-IsBlind _ _ (require-IsBlind _ _ _) (require-IsBlind _ _ _))

open_usb-IsBlind : (config : FtdiConfig) (bus : Bus) (c : ℕ) → IsBlind (open_usb config bus c)
unfolding open_usb
open_usb-IsBlind config bus c = and_then-IsBlind _ _ (open_device-IsBlind _ c) (
    and_then-IsBlind _ _ (require-IsBlind _ _ _) (
      and_then-IsBlind _ _ (require-IsBlind _ _ _) (
        and_then-IsBlind _ _ (acquire-IsBlind _) (
          and_then-IsBlind _ _ (require-IsBlind _ _ _) (
            and_then-IsBlind _ _ (acquire-IsBlind _) (
              and_then-IsBlind _ _ (require-IsBlind _ _ _) (
                and_then-IsBlind _ _ (require-IsBlind _ _ _) (
                  and_then-IsBlind _ _ (require_valid-IsBlind _ _ _)
                    (configure_uart-IsBlind config bus c)))))))))

pub open_usb_same :
    (config : FtdiConfig) (bus : Bus) (c : ℕ) (live live' : List Handle)
    → (open_usb config bus c live).0 ≡ (open_usb config bus c live').0
open_usb_same config bus c = (open_usb-IsBlind config bus c).same
