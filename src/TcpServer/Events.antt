-- ===== src/TcpServer/Events.antt =====
-- lib/go/transport_tcp.go: runs of a TCP server: what its accept loop, its read loops and the callers of
-- its methods do, in any order.
use qdp.Base.{ℕ, List, [], ◌∷◌, Option, none, some}
use qdp.Result.{Error}
use qdp.Message.{Message}
use qdp.Reader.{ReadFn}
use qdp.TcpServer.{
  TcpServer, Network, accept_conn, stop_accepting, take_from, write_message, close_server,
}
use qdp.TcpServer.Reading.{Choice, step_of}

pub data Event (S : Type 0) : Type 0 where
  accepts : S → Event S
  accept_returns takes : Event S
  steps : Network → ℕ → Choice → ℕ → Event S
  writes : Network → Message → Event S
  closes : Network → Option Error → Event S

unfoldable pub taken_end : {S : Type 0} → TcpServer S → Option (Message × TcpServer S) → TcpServer S
taken_end t none = t
taken_end t (some (m, t')) = t'

module _ {S : Type 0} (conn_read : ReadFn S) where
  unfoldable pub happens : Event S → TcpServer S → TcpServer S
  happens (accepts s) t = accept_conn s t
  happens accept_returns t = stop_accepting t
  happens takes t = taken_end t (take_from t.msg_ch t)
  happens (steps net fuel choice i) t = step_of conn_read net fuel choice i (t.clients i) t
  happens (writes net m) t = (write_message net m t).1
  happens (closes net closed) t = (close_server net closed t).1

  unfoldable pub run : List (Event S) → TcpServer S → TcpServer S
  run [] t = t
  run (e ∷ es) t = run es (happens e t)
