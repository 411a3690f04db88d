-- ===== src/Ftdi/Transport/Device.antt =====
-- lib/go/transport_ftdi.go: a device with concrete answers, for runs of a transport.
use qdp.Base.{ℕ, zero, suc, ◌≡◌, refl, [], ◌∷◌, length, true, false, none, some}
use qdp.Result.{err, eof}
use qdp.Message.{Message}
use qdp.Reader.{
  Reader, new_message_reader, read_message, read_rounds, read_round, after_header, read_more, shift,
  accept,
}
use qdp.TcpClient.{on_connect}
use qdp.Ftdi.Config.{default_ftdi_config}
use qdp.Ftdi.Endpoint.{
  Transfer, usb_error, EndpointReader, new_endpoint_reader, fetch, refill, after_transfer, ready,
}
use qdp.Ftdi.Endpoint
use qdp.Ftdi.Writing.{sent}
use qdp.Ftdi.Usb.{Bus, opened, found}
use qdp.Ftdi.Usb.Handles.{own}
use qdp.Ftdi.Transport.Errors.{ForeignErrors}
use qdp.Ftdi.Transport.{FtdiTransport, endpoint_read, as_answer}

-- A device that can be opened, takes every packet, and whose input fails.
abbrev pub broken_input : Bus
broken_input = record {
  open_device_with_vid_pid = λ v p. opened;
  set_auto_detach = none;
  config = λ n. none;
  claim_interface = λ n a. none;
  in_endpoint = λ n. found;
  out_endpoint = λ n. found;
  control = λ r x v i. none;
  packets = λ n. usb_error 5;
  send = λ n p. sent (length p);
}

-- The same device, which at the second connection refuses the configuration of the UART.
abbrev pub usb : ℕ → Bus
usb zero = broken_input
usb (suc zero) = record broken_input { control = λ r x v i. some 9 }
usb (suc (suc n)) = broken_input

abbrev pub foreign : ForeignErrors
foreign = record { no_device = λ n. false; text = λ n. [] }

abbrev pub hello : Message
hello = record { topic = b'h' ∷ []; payload = b'i' ∷ [] }

abbrev pub fresh_reader : Reader EndpointReader
fresh_reader = new_message_reader new_endpoint_reader

abbrev pub connected : FtdiTransport
connected = record {
  config = default_ftdi_config;
  has_handler = true;
  cancelled = false;
  disconnected = false;
  attempts = 2;
  resources = some 1;
  endpoints = 0;
  writes = 0;
  reader = some fresh_reader;
  wire = [];
  live = own 1;
  notices = on_connect ∷ [];
}

abbrev pub ended_reader : Reader EndpointReader
ended_reader = record fresh_reader { reader = record new_endpoint_reader { transfers = 1 } }

pub reader_ends :
    read_message (endpoint_read (Bus.packets (usb 0))) 1 fresh_reader ≡ some (err eof, ended_reader)
unfolding read_message read_rounds read_round after_header read_more shift accept new_message_reader
    endpoint_read as_answer Endpoint.read fetch refill after_transfer ready new_endpoint_reader
reader_ends = refl
