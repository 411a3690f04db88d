-- ===== src/TcpClient/Runs.antt =====
-- lib/go/transport_tcp.go: a client at a concrete connection.
use qdp.Base.{ℕ, ◌≡◌, List, [], ◌∷◌, true, Option, none, some}
use qdp.Result.{Error, ok, err, eof}
use qdp.Message.{Message}
use qdp.Reader.{ReadFn}
use qdp.TcpClient.{TcpClient, on_connect, new_tcp_client, read, write, close}
use qdp.TcpClient.Notices.{Call, reading, writing, closing, calls, Heard, calls-Heard}
use qdp.TcpClient.Closing.{calls-close}

-- A connection whose peer has sent nothing and closed it.
abbrev silent : ReadFn ℕ
silent s n = ([], some eof, s)

abbrev accepts : List ℕ → Option Error
accepts bytes = none

abbrev hello : Message
hello = record { topic = b'h' ∷ []; payload = b'i' ∷ [] }

abbrev session : List Call
session = writing accepts hello ∷ reading 2 ∷ reading 2 ∷ closing none ∷ []

session_told : Heard (on_connect ∷ []) (calls silent session (new_tcp_client 0 true))
session_told = calls-Heard silent 0 session

abbrev client : TcpClient ℕ
client = new_tcp_client 0 true

calls-close_example :
    (calls silent session (close none client).1 ≡ (close none client).1)
    × (read silent 2 (close none client).1 ≡ some (err eof, (close none client).1))
    × (write accepts hello (close none client).1 ≡ (ok (some eof), (close none client).1))
calls-close_example = calls-close silent session 2 accepts hello none client
