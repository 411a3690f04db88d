-- ===== src/Ftdi/Config.antt =====
-- lib/go/transport_ftdi.go: `FTDIConfig`. An int is its bit pattern.
use qdp.Base.{ℕ}

pub record FtdiConfig : Type 0 where
  pub vid : ℕ
  pub pid : ℕ
  pub interface : ℕ
  pub read_ep : ℕ
  pub write_ep : ℕ
  pub baud_rate : ℕ
  pub data_bits : ℕ
  pub stop_bits : ℕ
  pub parity : ℕ
  pub flow_control : ℕ

abbrev pub default_ftdi_config : FtdiConfig
default_ftdi_config = record {
  vid = 0x0403;
  pid = 0x6001;
  interface = 0;
  read_ep = 0x81;
  write_ep = 0x01;
  baud_rate = 115200;
  data_bits = 8;
  stop_bits = 1;
  parity = 0;
  flow_control = 0;
}
