-- ===== src/TcpServer/Relay.antt =====
-- lib/go/transport_tcp.go: what the broadcast of a message has sent when its loop is done with it.
use qdp.Base.{
  choose, Bool-cases, subst, ==→eq, ℕ, zero, suc, ltb, ◌≤◌, ◌<◌, ◌≡◌, refl, sym, ap, ◌∙◌, arith,
  ◌==◌, List, [], ◌∷◌, ◌++◌, append_assoc, Bool, true, false, ◌&&◌, ◌||◌, not, Option, none, some,
  ◌⊎◌, inl, inr,
}
use qdp.Result.{Error, Result, ok}
use qdp.Message.{Message}
use qdp.Message.Frame.{frame, Fits}
use qdp.Message.Encoding.{written_bytes-frame}
use qdp.TcpClient.{TcpClient, send, write}
use qdp.TcpServer.{
  Range, ReadLoop, at_head, in_read, stopped, at_range, at_send, Client, TcpServer, Network,
  after_send,
}
use qdp.TcpServer.Reading.{is_listed, sent_to, begin_range, is_member, mark_reached, is_over}
use qdp.TcpServer.Growth.{Grows, Grows-sent}

module _ {S : Type 0} where
  -- A client is out of the map, or has been sent the frame of the message since the broadcast began.
  abbrev pub Got : Range → Message → ℕ → Option (Client S) → Type 0
  Got r m j none = ⊥
  Got r m j (some d) =
      (d.listed ≡ false)
      ⊎ ((xs : List (List ℕ)) × (ys : List (List ℕ)) × (d.socket.sent
            ≡ r.before j ++ (xs ++ (frame m ∷ ys))))

  abbrev IsThere : Option (Client S) → Type 0
  IsThere none = ⊥
  IsThere (some d) = Unit {0}

  -- In the broadcast of the loop `i`: what is known of the client `j`.
  pub record IsRanging (i j : ℕ) (m : Message) (r : Range) (o : Option (Client S)) : Type 0 where
    pub since : (zs : List (List ℕ)) × (sent_to o ≡ r.before j ++ zs)
    pub got : Fits m → is_member j r.reached ≡ true → (j == i) ≡ false → Got r m j o
    pub there : r.present j ≡ true → IsThere o
    pub counted : r.present j ≡ true → j < r.bound

  abbrev pub Relays : ℕ → ℕ → ReadLoop → Option (Client S) → Type 0
  Relays i j at_head o = Unit {0}
  Relays i j in_read o = Unit {0}
  Relays i j stopped o = Unit {0}
  Relays i j (at_range m r) o = IsRanging i j m r o
  Relays i j (at_send m r) o = Fits m → r.present j ≡ true → (j == i) ≡ false → Got r m j o

  abbrev pub loop_of : Option (Client S) → ReadLoop
  loop_of none = at_head
  loop_of (some c) = c.read_loop

  pub record IsRelaying (clients : ℕ → Option (Client S)) : Type 0 where
    pub relays : (i j : ℕ) → Relays i j (loop_of (clients i)) (clients j)

  Got-Grows :
      (r : Range) (m : Message) (j : ℕ) (o o' : Option (Client S))
      → Grows o o'
      → Got r m j o
      → Got r m j o'
  Got-Grows r m j none o' grown got = absurd got
  Got-Grows r m j (some d) none grown got = absurd grown
  Got-Grows r m j (some d) (some d') (grown, listing) (inl gone) = elim (Bool-cases d'.listed) [
    | inl here ↦ absurd (true-ne-false (sym (listing here) ∙ gone))
    | inr out ↦ inl out
  ]
    where
      true-ne-false : true ≡ false → ⊥
      true-ne-false e = cc
  Got-Grows r m j (some d) (some d') ((zs, grown), listing) (inr (xs, ys, sent)) = inr (
    xs,
    ys ++ zs,
    grown
        ∙ ap (λ ss. ss ++ zs) sent
        ∙ append_assoc (r.before j) (xs ++ (frame m ∷ ys)) zs
        ∙ ap (λ ss. r.before j ++ ss) (append_assoc xs (frame m ∷ ys) zs),
  )

  IsThere-Grows : (o o' : Option (Client S)) → Grows o o' → IsThere o → IsThere o'
  IsThere-Grows none o' grown there = absurd there
  IsThere-Grows (some d) none grown there = absurd grown
  IsThere-Grows (some d) (some d') grown there = tt

  since-Grows :
      (before : List (List ℕ)) (o o' : Option (Client S))
      → Grows o o'
      → (zs : List (List ℕ)) × (sent_to o ≡ before ++ zs)
      → (zs : List (List ℕ)) × (sent_to o' ≡ before ++ zs)
  since-Grows before o o' grown (zs, sent) =
      let (more, extended) = Grows-sent o o' grown in
      (zs ++ more, extended ∙ ap (λ ss. ss ++ more) sent ∙ append_assoc before zs more)

  pub Relays-Grows :
      (i j : ℕ) (l : ReadLoop) (o o' : Option (Client S))
      → Grows o o'
      → Relays i j l o
      → Relays i j l o'
  Relays-Grows i j at_head o o' grown v = tt
  Relays-Grows i j in_read o o' grown v = tt
  Relays-Grows i j stopped o o' grown v = tt
  Relays-Grows i j (at_range m r) o o' grown v = record {
    since = since-Grows (r.before j) o o' grown v.since;
    got = λ fits seen other. Got-Grows r m j o o' grown (v.got fits seen other);
    there = λ present. IsThere-Grows o o' grown (v.there present);
    counted = v.counted;
  }
  Relays-Grows i j (at_send m r) o o' grown v =
      λ fits present other. Got-Grows r m j o o' grown (v fits present other)

  -- One loop makes a step and the clients grow.
  pub step-IsRelaying :
      (clients clients' : ℕ → Option (Client S)) (i : ℕ)
      → IsRelaying clients
      → ((j : ℕ) → Grows (clients j) (clients' j))
      → ((k : ℕ) → (k == i) ≡ false → loop_of (clients' k) ≡ loop_of (clients k))
      → ((j : ℕ) → Relays i j (loop_of (clients' i)) (clients' j))
      → IsRelaying clients'
  step-IsRelaying clients clients' i v grown others own = record {
    relays = λ k j. elim (Bool-cases (k == i)) [
      | inl same ↦
          subst (λ n. Relays n j (loop_of (clients' n)) (clients' j)) (sym (==→eq k i same)) (own j)
      | inr other ↦
          subst (λ l. Relays k j l (clients' j)) (sym (others k other))
            (Relays-Grows k j (loop_of (clients k)) (clients j) (clients' j) (grown j)
              (v.relays k j))
    ];
  }

  -- The clients grow and no loop makes a step.
  pub grown-IsRelaying :
      (clients clients' : ℕ → Option (Client S))
      → IsRelaying clients
      → ((j : ℕ) → Grows (clients j) (clients' j))
      → ((k : ℕ) → loop_of (clients' k) ≡ loop_of (clients k))
      → IsRelaying clients'
  grown-IsRelaying clients clients' v grown same = record {
    relays = λ k j.
        subst (λ l. Relays k j l (clients' j)) (sym (same k))
          (Relays-Grows k j (loop_of (clients k)) (clients j) (clients' j) (grown j)
            (v.relays k j));
  }

  -- The broadcast begins.
  listed-IsThere : (o o' : Option (Client S)) → Grows o o' → is_listed o ≡ true → IsThere o'
  unfolding is_listed
  listed-IsThere none o' grown here = cc
  listed-IsThere (some d) none grown here = absurd grown
  listed-IsThere (some d) (some d') grown here = tt

  pub begin-IsRanging :
      (t : TcpServer S) (clients' : ℕ → Option (Client S)) (i : ℕ) (m : Message)
      → ((j : ℕ) → t.accepted ≤ j → t.clients j ≡ none)
      → ((j : ℕ) → Grows (t.clients j) (clients' j))
      → (j : ℕ) → IsRanging i j m (begin_range t) (clients' j)
  unfolding begin_range is_member
  begin-IsRanging t clients' i m fresh grown j = record {
    since = Grows-sent (t.clients j) (clients' j) (grown j);
    got = λ fits seen other. cc;
    there = listed-IsThere (t.clients j) (clients' j) (grown j);
    counted = λ present. elim (Bool-cases (ltb j t.accepted)) [
      | inl early ↦ ground arith
      | inr late ↦ absurd (
          false-ne-true
            (unfold is_listed in (sym (ap is_listed (fresh j (ground arith))) ∙ present)))
    ];
  }
    where
      false-ne-true : false ≡ true → ⊥
      false-ne-true e = cc

  -- A client is reached.
  pub after_send-Got :
      (net : Network) (r : Range) (m : Message) (j : ℕ) (d : Client S)
      → Fits m
      → (zs : List (List ℕ)) × (sent_to (some d) ≡ r.before j ++ zs)
      → Got r m j (some (after_send net j (write (net.conn_write j) m d.socket) d))
  unfolding write send sent_to
  after_send-Got net r m j d fits (zs, sent) =
      choose (λ (o : Result (Option Error) × TcpClient S). Got r m j (some (after_send net j o d)))
        d.socket.cancelled (unfold after_send in inl refl)
        (subst
          (λ bytes. Got r m j (some (after_send net j (send (net.conn_write j) bytes d.socket) d)))
          (sym (written_bytes-frame m fits)) (answered (net.conn_write j (frame m))))
    where
      answered :
          (e : Option Error)
          → Got r m j (
              some (
                after_send net j
                  (ok e, record d.socket { sent = d.socket.sent ++ (frame m ∷ []) })
                  d))
      answered none =
          unfold after_send in
          inr (
            zs,
            [],
            ap (λ ss. ss ++ (frame m ∷ [])) sent ∙ append_assoc (r.before j) zs (frame m ∷ []),
          )
      answered (some e) = unfold after_send in inl refl

  pub mark-IsRanging :
      (i j k : ℕ) (m : Message) (r : Range) (o o' : Option (Client S))
      → Grows o o'
      → IsRanging i k m r o
      → (Fits m → (k == i) ≡ false → (j == k) ≡ true → Got r m k o')
      → IsRanging i k m (mark_reached j r) o'
  unfolding mark_reached is_member
  mark-IsRanging i j k m r o o' grown v new = record {
    since = since-Grows (r.before k) o o' grown v.since;
    got = λ fits seen other. elim (Bool-cases (j == k)) [
      | inl here ↦ new fits other here
      | inr there ↦
          Got-Grows r m k o o' grown
            (v.got fits (later (j == k) (is_member k r.reached) there seen) other)
    ];
    there = λ present. IsThere-Grows o o' grown (v.there present);
    counted = v.counted;
  }
    where
      later : (a b : Bool) → a ≡ false → (a || b) ≡ true → b ≡ true
      later true b off seen = cc
      later false b off seen = seen

  -- The broadcast is over.
  is_over-member :
      (clients : ℕ → Option (Client S)) (r : Range) (n j : ℕ)
      → is_over clients r n ≡ true
      → j < n
      → r.present j ≡ true
      → is_listed (clients j) ≡ true
      → is_member j r.reached ≡ true
  unfolding is_over
  is_over-member clients r zero j over early present here = absurd (omega arith)
  is_over-member clients r (suc n) j over early present here = elim (Bool-cases (j == n)) [
    | inl same ↦ last j n (==→eq j n same) (and_right _ _ over) present here
    | inr other ↦ is_over-member clients r n j (and_left _ _ over) (ground arith) present here
  ]
    where
      and_left : (a b : Bool) → (a && b) ≡ true → a ≡ true
      and_left true b both = refl
      and_left false b both = both

      and_right : (a b : Bool) → (a && b) ≡ true → b ≡ true
      and_right true b both = both
      and_right false b both = cc

      decided : (a b c : Bool) → (not (a && b) || c) ≡ true → a ≡ true → b ≡ true → c ≡ true
      decided true true c said a b = said
      decided true false c said a b = cc
      decided false b c said a e = cc

      last :
          (j n : ℕ)
          → j ≡ n
          → (not (r.present n && is_listed (clients n)) || is_member n r.reached) ≡ true
          → r.present j ≡ true
          → is_listed (clients j) ≡ true
          → is_member j r.reached ≡ true
      last j n same said present here =
          ap (λ k. is_member k r.reached) same
          ∙ decided (r.present n) (is_listed (clients n)) (is_member n r.reached) said
              (sym (ap r.present same) ∙ present)
              (sym (ap (λ k. is_listed (clients k)) same) ∙ here)

  pub end-Got :
      (clients : ℕ → Option (Client S)) (i j : ℕ) (m : Message) (r : Range)
      → is_over clients r r.bound ≡ true
      → IsRanging i j m r (clients j)
      → Fits m
      → r.present j ≡ true
      → (j == i) ≡ false
      → Got r m j (clients j)
  unfolding is_listed
  end-Got clients i j m r over v fits present other = elim (Bool-cases (is_listed (clients j))) [
    | inl here ↦
        v.got fits (is_over-member clients r r.bound j over (v.counted present) present here) other
    | inr gone ↦ unlisted (clients j) gone (v.there present)
  ]
    where
      unlisted : (o : Option (Client S)) → is_listed o ≡ false → IsThere o → Got r m j o
      unlisted none gone there = absurd there
      unlisted (some d) gone there = inl gone
