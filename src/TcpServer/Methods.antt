-- ===== src/TcpServer/Methods.antt =====
-- lib/go/transport_tcp.go: what the methods of a TCP server, and its accept loop, keep.
use qdp.TcpServer.Clients.{
  InOrder, IsOrdered, close_client-IsOrdered, done-InOrder, from, map_client-InOrder,
  map_client-none, send_to-IsOrdered, set-others,
}
use qdp.Base.{
  if_true, if_false, choose, Bool-cases, ==→eq, ℕ, ◌≤◌, ◌≡◌, refl, sym, ap, subst, ◌∙◌, arith, ◌==◌,
  List, [], ◌∷◌, ◌++◌, map, length, append_assoc, Bool, true, false, ◌&&◌, not, Option, none, some,
  ◌⊎◌, inl, inr,
}
use qdp.Result.{Error}
use qdp.Message.{Message}
use qdp.TcpClient.{Notice, on_disconnect}
use qdp.TcpServer.Events.{taken_end}
use qdp.TcpServer.{
  msg_ch_size, Client, TcpServer, Network, notify_end, set, new_client, accept_conn, stop_accepting,
  send_to, map_client, send_all, take_from, write_message, close_client, close_clients,
  close_server,
}

-- The handler hears that the server has started, and at most once that it has ended.
abbrev pub IsTold : {S : Type 0} → List Notice → TcpServer S → Type 0
IsTold before t =
    ((t.disconnected ≡ false) × (t.notices ≡ before))
    ⊎ ((t.disconnected ≡ true)
        × ((e : Option Error) × (t.notices ≡ before ++ (on_disconnect e ∷ []))))

pub record IsConsistent {S : Type 0} (before : List Notice) (t : TcpServer S) : Type 0 where
  pub merged : map (λ (p : ℕ × Message). p.1) t.puts ≡ t.taken ++ t.msg_ch
  pub bounded : length t.msg_ch ≤ msg_ch_size
  pub ordered : (i : ℕ) → InOrder t.cancelled (from i t.puts) (t.clients i)
  pub fresh : (i : ℕ) → t.accepted ≤ i → t.clients i ≡ none
  pub told : IsTold before t

module _ {S : Type 0} (before : List Notice) where
  notify_end-IsConsistent :
      (e : Option Error) (t : TcpServer S)
      → IsConsistent before t
      → IsConsistent before (notify_end e t)
  unfolding notify_end
  notify_end-IsConsistent e t v = elim (Bool-cases (t.has_handler && not t.disconnected)) [
    | inl first ↦
        subst (IsConsistent before) (sym (if_true (t.has_handler && not t.disconnected) _ _ first))
          (record {
            merged = v.merged;
            bounded = v.bounded;
            ordered = v.ordered;
            fresh = v.fresh;
            told = elim v.told [
              | inl (on, none_more) ↦
                  inr (refl, (e, ap (λ ns. ns ++ (on_disconnect e ∷ [])) none_more))
              | inr (off, once) ↦ absurd (again t.has_handler t.disconnected off first)
            ];
          })
    | inr known ↦
        subst (IsConsistent before) (sym (if_false (t.has_handler && not t.disconnected) _ _ known))
          v
  ]
    where
      again : (h d : Bool) → d ≡ true → (h && not d) ≡ true → ⊥
      again true true off first = cc
      again true false off first = cc
      again false d off first = cc

  with_clients :
      (t : TcpServer S) (clients : ℕ → Option (Client S))
      → IsConsistent before t
      → ((i : ℕ) → InOrder t.cancelled (from i t.puts) (clients i))
      → ((i : ℕ) → t.accepted ≤ i → clients i ≡ none)
      → IsConsistent before (record t { clients = clients })
  with_clients t clients v ordered fresh = record {
    merged = v.merged;
    bounded = v.bounded;
    ordered = ordered;
    fresh = fresh;
    told = v.told;
  }

  -- A client that is there was accepted.
  pub fresh-set :
      (t : TcpServer S) (i : ℕ) (c c' : Client S)
      → IsConsistent before t
      → t.clients i ≡ some c
      → (j : ℕ) → t.accepted ≤ j
      → set i c' t.clients j ≡ none
  unfolding set
  fresh-set t i c c' v here j late = elim (Bool-cases (j == i)) [
    | inl same ↦
        absurd (some-ne-none c (sym here ∙ ap t.clients (sym (==→eq j i same)) ∙ v.fresh j late))
    | inr other ↦ if_false (j == i) _ _ other ∙ v.fresh j late
  ]
    where
      some-ne-none : (c : Client S) → some c ≡ none → ⊥
      some-ne-none c e = cc

  pub set-IsConsistent :
      (t : TcpServer S) (i : ℕ) (c c' : Client S)
      → IsConsistent before t
      → t.clients i ≡ some c
      → IsOrdered t.cancelled (from i t.puts) c'
      → IsConsistent before (record t { clients = set i c' t.clients })
  set-IsConsistent t i c c' v here changed =
      with_clients t (set i c' t.clients) v
        (set-others (λ j. InOrder t.cancelled (from j t.puts)) i c' t.clients changed
          (λ j other. v.ordered j))
        (fresh-set t i c c' v here)

  pub write_message-IsConsistent :
      (net : Network) (m : Message) (t : TcpServer S)
      → IsConsistent before t
      → IsConsistent before (write_message net m t).1
  unfolding write_message send_all
  write_message-IsConsistent net m t v =
      with_clients t (send_all net m t.clients) v
        (λ j.
          map_client-InOrder t.cancelled (from j t.puts) (send_to net m j)
            (send_to-IsOrdered t.cancelled (from j t.puts) net j m) (t.clients j) (v.ordered j))
        (λ j late.
          ap (map_client (send_to net m j)) (v.fresh j late) ∙ map_client-none (send_to net m j))

  pub close_server-IsConsistent :
      (net : Network) (closed : Option Error) (t : TcpServer S)
      → IsConsistent before t
      → IsConsistent before (close_server net closed t).1
  unfolding close_server close_clients
  close_server-IsConsistent net closed t v =
      notify_end-IsConsistent closed (close_clients net t) (record {
        merged = v.merged;
        bounded = v.bounded;
        ordered = λ j.
            map_client-InOrder true (from j t.puts) (close_client net j)
              (close_client-IsOrdered true (from j t.puts) net j) (t.clients j)
              (done-InOrder t.cancelled (from j t.puts) (t.clients j) (v.ordered j));
        fresh = λ j late.
            ap (map_client (close_client net j)) (v.fresh j late)
            ∙ map_client-none (close_client net j);
        told = v.told;
      })

  pub accept_conn-IsConsistent :
      (s : S) (t : TcpServer S) → IsConsistent before t → IsConsistent before (accept_conn s t)
  unfolding accept_conn new_client set
  accept_conn-IsConsistent s t v =
      choose (IsConsistent before) t.accepting
        (record {
          merged = v.merged;
          bounded = v.bounded;
          ordered =
              set-others (λ j. InOrder t.cancelled (from j t.puts)) t.accepted (new_client s)
                t.clients
                (record {
                  order = sym (ap (λ ps. ps ++ []) nothing);
                  drops = inl refl;
                  removed = inl refl;
                })
                (λ j other. v.ordered j);
          fresh = λ j late. if_false (j == t.accepted) _ _ (ground arith) ∙ v.fresh j (omega arith);
          told = v.told;
        })
        v
    where
      nothing : from t.accepted t.puts ≡ []
      nothing =
          subst (InOrder t.cancelled (from t.accepted t.puts)) (v.fresh t.accepted (omega arith))
            (v.ordered t.accepted)

  pub stop_accepting-IsConsistent :
      (t : TcpServer S) → IsConsistent before t → IsConsistent before (stop_accepting t)
  unfolding stop_accepting
  stop_accepting-IsConsistent t v =
      choose (IsConsistent before) t.accepting
        (notify_end-IsConsistent none (record t { accepting = false })
          (record {
            merged = v.merged;
            bounded = v.bounded;
            ordered = v.ordered;
            fresh = v.fresh;
            told = v.told;
          }))
        v

  pub take_from-IsConsistent :
      (ms : List Message) (t : TcpServer S)
      → t.msg_ch ≡ ms
      → IsConsistent before t
      → IsConsistent before (taken_end t (take_from ms t))
  unfolding take_from taken_end
  take_from-IsConsistent [] t same v = v
  take_from-IsConsistent (m ∷ ms) t same v = record {
    merged = v.merged ∙ ap (λ ns. t.taken ++ ns) same ∙ sym (append_assoc t.taken (m ∷ []) ms);
    bounded = omega (arith, v.bounded, ap length same);
    ordered = v.ordered;
    fresh = v.fresh;
    told = v.told;
  }
