-- ===== src/System/Following.antt =====
-- message_broker.go with lib/go/transport_tcp.go and lib/go/transport_ftdi.go: the broker follows the
-- state of its transports.
use qdp.Base.{subst, ℕ, ◌≡◌, sym, ap, ◌∙◌, Bool, true, not, List, [], ◌∷◌, map, inl, inr}
use qdp.Reader.{ReadFn}
use qdp.TcpClient.{on_connect, TcpClient, new_tcp_client}
use qdp.TcpClient.Notices as TcpCalls
use qdp.TcpClient.Notices.{Heard, calls-Heard}
use qdp.TcpClient.Ends.{has_ended, calls-has_ended}
use qdp.Ftdi.Transport.{FtdiTransport}
use qdp.Ftdi.Transport.Calls
use qdp.Broker.{Store, Broker}
use qdp.Broker.Jobs.{Job}
use qdp.Broker.Events.{job, handle_all}
use qdp.System.{hears_all, connection_handler}
use qdp.System.Standing.{of_transport, last_notice, Shows, KeepsFlags, jobs-Shows}

Heard-last :
    {S : Type 0} (b : Bool) (t : TcpClient S)
    → Heard (on_connect ∷ []) t
    → last_notice b t.notices ≡ not t.disconnected
unfolding last_notice
Heard-last b t (handler, inl (on, none_more)) = ap (last_notice b) none_more ∙ ap not (sym on)
Heard-last b t (handler, inr (off, (e, once))) = ap (last_notice b) once ∙ ap not (sym off)

-- A transport with a handler, which has heard last whether the transport is marked as disconnected.
abbrev IsMarked : Bool → FtdiTransport → Type 0
IsMarked b t = (t.has_handler ≡ true) × (last_notice b t.notices ≡ not t.disconnected)

-- No call takes the handler away.
abbrev HasHandler : FtdiTransport → Type 0
HasHandler t = t.has_handler ≡ true

module _ {S : Type 0} (db : Store S) (kept : KeepsFlags db) (e : ℕ) (b : Bool) (w : Broker S)
    (v : Shows db e b w) (js : List Job) where
  -- In a store where a read of IsConnected gives what was written last, and where the counters are other
  -- fields, a broker leads, and its map of protocols and the field IsConnected of an entity agree. It
  -- then runs any jobs, among which the connections and disconnections of the entity are those that the
  -- handler of a new TCP client has passed on over any calls of the client, in their order. After these
  -- jobs the broker leads, and the entity has a protocol in the map, and its field IsConnected is true,
  -- exactly if none of the calls was Close or a ReadMessage that gave an error.
  pub calls-Shows_tcp :
      {R : Type 0} (conn_read : ReadFn R) (s : R) (cs : List TcpCalls.Call)
      → let t = TcpCalls.calls conn_read cs (new_tcp_client s true) in
        of_transport e js ≡ hears_all (connection_handler e) t.notices
        → Shows db e
            (not (has_ended conn_read cs (new_tcp_client s true)))
            (handle_all db (map job js) w)
  calls-Shows_tcp conn_read s cs own =
      let t = TcpCalls.calls conn_read cs (new_tcp_client s true) in
      subst (λ c. Shows db e c (handle_all db (map job js) w))
        (Heard-last b t (calls-Heard conn_read s cs) ∙ ap not (calls-has_ended conn_read s cs))
        (jobs-Shows db kept e b t.notices js w own v)
