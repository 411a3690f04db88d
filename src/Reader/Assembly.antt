-- ===== src/Reader/Assembly.antt =====
-- `ReadMessage` of lib/go/qdp.go on a new reader returns the first message, in whatever pieces it
-- arrives.
use qdp.Base.{
  ℕ, suc, ◌+◌, ◌-◌, ◌*◌, ◌≤◌, ◌<◌, ◌≡◌, refl, sym, ap, subst, ◌∙◌, List, [], ◌∷◌, ◌++◌,
  append_assoc, append-nil, arith, none, some, length, take, length-append, length-replicate,
  take-append, gt→leb, ge→ltb,
}
use native.Mathlib.Decide.{dec_lt}
use qdp.Result.{ok}
use qdp.Message.{Message}
use qdp.Message.Frame.{frame, frame_size, length-frame, IsBytesMessage}
use qdp.Reader.{
  Reader, ReadFn, buffer_size, Control, outer, scan, next, new_message_reader, read_more,
  after_partial, candidate, read_round, read_rounds, read_message,
}
use qdp.Reader.Rounds.{read_rounds-done, read_rounds-next}
use qdp.Reader.Parsing.{IsSmall}
use qdp.Reader.Delivery.{scan-frame, scan_at-header, header-topic_len, header-payload_len}
use qdp.Reader.Chunks.{
  flatten, Feeds, fed, feed, IsFresh, with_chunk, with_chunk-IsFresh, read_more-fresh, outer-short,
  scan-short,
}

module _ {S : Type 0} (read : ReadFn S) (m : Message) (bytes : IsBytesMessage m)
    (small : IsSmall m) where
  -- The method has returned the message, and has read nothing beyond it.
  abbrev pub Delivered : ℕ → Control → Reader S → Type 0
  Delivered fuel c r =
      (r' : Reader S) × (read_rounds read fuel c r ≡ some (ok m, r'))
      × (r'.pos ≡ frame_size m)
      × (r'.count ≡ frame_size m)

  Delivered-next :
      (fuel : ℕ) (c c' : Control) (r r' : Reader S)
      → read_round read c r ≡ next c' r'
      → Delivered fuel c' r'
      → Delivered (suc fuel) c r
  Delivered-next fuel c c' r r' h (r'', e, p, k) =
      (r'', read_rounds-next read fuel c c' r r' h ∙ e, p, k)

  outer-enough :
      (got : List ℕ) (r : Reader S)
      → IsFresh got r
      → 8 ≤ length got
      → read_round read outer r ≡ next (scan 0) r
  unfolding read_round
  outer-enough got r f enough =
      rw (ge→ltb r.count (r.pos + 8) (omega (arith, f.held, f.at_start, enough)))
        (ap (λ k. next (scan k) r) f.at_start)

  scan-whole :
      (fuel : ℕ) (got : List ℕ) (r : Reader S)
      → IsFresh got r
      → got ≡ frame m
      → Delivered (suc fuel) (scan 0) r
  scan-whole fuel got r f e = (
    record r { pos = 0 + frame_size m },
    read_rounds-done read fuel (scan 0) r (record r { pos = 0 + frame_size m }) (ok m)
        (scan-frame read m bytes small 0 r (omega (arith, f.held, f.size, size))
          (omega (arith, f.held, size)) front),
    omega arith,
    omega (arith, f.held, size),
  )
    where
      size : length got ≡ frame_size m
      size = ap length e ∙ length-frame m

      front : take (frame_size m) r.buffer ≡ frame m
      front = ap (λ k. take k r.buffer) (sym size) ∙ f.front ∙ e

  -- A round at an unfinished message takes the next chunk.
  scan-partial :
      (got rest : List ℕ) (r r' : Reader S)
      → IsFresh got r
      → got ++ rest ≡ frame m
      → 8 ≤ length got
      → length got < frame_size m
      → read_more read r ≡ (none, r')
      → read_round read (scan 0) r ≡ next (scan 0) r'
  unfolding candidate after_partial
  scan-partial got rest r r' f e enough partial more =
      scan_at-header read m bytes small 0 r
        (header-topic_len m small r.buffer (length got) enough front)
        (header-payload_len m small r.buffer (length got) enough front)
        (omega (arith, f.held, enough))
      ∙ rw (gt→leb (0 + frame_size m) r.count (omega (arith, f.held, partial)), more)
    where
      front : take (length got) r.buffer ≡ take (length got) (frame m)
      front =
          f.front ∙ sym (ap (take (length got)) (sym e) ∙ take-append (length got) got rest refl)

-- Two rounds for each chunk, and `fuel` more.
abbrev rounds : List (List ℕ) → ℕ → ℕ
rounds [] fuel = fuel
rounds (c ∷ cs) fuel = suc (suc (rounds cs fuel))

rounds-suc : (cs : List (List ℕ)) (fuel : ℕ) → rounds cs (suc fuel) ≡ suc (rounds cs fuel)
rounds-suc [] fuel = refl
rounds-suc (c ∷ cs) fuel = ap (λ k. suc (suc k)) (rounds-suc cs fuel)

rounds-length : (cs : List (List ℕ)) (fuel : ℕ) → rounds cs fuel ≡ 2 * length cs + fuel
rounds-length [] fuel = omega arith
rounds-length (c ∷ cs) fuel = omega (arith, rounds-length cs fuel)

module _ {S : Type 0} (read : ReadFn S) (m : Message) (bytes : IsBytesMessage m)
    (small : IsSmall m) where
  -- From either loop head the rounds are enough.
  deliver :
      {s : S} {cs : List (List ℕ)}
      → Feeds read s cs
      → (got : List ℕ) (r : Reader S) → r.reader ≡ s
      → IsFresh got r
      → got ++ flatten cs ≡ frame m
      → (fuel : ℕ)
      → Delivered read m bytes small (suc (rounds cs fuel)) (scan 0) r
        × Delivered read m bytes small (suc (suc (rounds cs fuel))) outer r
  deliver fed got r same f e fuel = (
    scan-whole read m bytes small fuel got r f whole,
    Delivered-next read m bytes small (suc fuel) outer (scan 0) r r
        (outer-enough read m bytes small got r f (omega (arith, size)))
        (scan-whole read m bytes small fuel got r f whole),
  )
    where
      whole : got ≡ frame m
      whole = sym (append-nil got) ∙ e

      size : length got ≡ frame_size m
      size = ap length whole ∙ length-frame m
  deliver (feed {s' = s'} {c = c} {cs = cs} filled gives more) got r same f e fuel =
      let r2 : Reader S = with_chunk c s' r in
      let total : length got + (length c + length (flatten cs)) ≡ frame_size m = omega (
        arith,
        length-append got (c ++ flatten cs),
        length-append c (flatten cs),
        ap length e,
        length-frame m,
      ) in
      let room : length got + length c ≤ buffer_size = omega (arith, total, small.0, small.1) in
      let partial : length got < frame_size m = omega (arith, total, filled) in
      let given : (n : ℕ) → length c ≤ n → read r.reader n ≡ (c, none, s') =
        λ n h. ap (λ x. read x n) same ∙ gives n h in
      let took : read_more read r ≡ (none, r2) =
        read_more-fresh read got c s' r f filled given room in
      let f2 : IsFresh (got ++ c) r2 = with_chunk-IsFresh read got c s' r f room in
      let e2 : (got ++ c) ++ flatten cs ≡ frame m = append_assoc got c (flatten cs) ∙ e in
      let now = deliver more (got ++ c) r2 refl f2 e2 fuel in
      let later = deliver more (got ++ c) r2 refl f2 e2 (suc fuel) in
      let latest = deliver more (got ++ c) r2 refl f2 e2 (suc (suc fuel)) in
      let go = Delivered-next read m bytes small in
      let at_scan : Delivered read m bytes small (suc (suc (suc (rounds cs fuel)))) (scan 0) r =
        elim (dec_lt (length got) 8) [
          | yes short ↦
              go (suc (suc (rounds cs fuel))) (scan 0) outer r r2
                (scan-short read got c s' r f took short) now.1
          | no enough ↦
              go (suc (suc (rounds cs fuel))) (scan 0) (scan 0) r r2
                (scan-partial read m bytes small got (c ++ flatten cs) r r2 f e (omega arith)
                  partial took)
                (subst (λ k. Delivered read m bytes small (suc k) (scan 0) r2) (rounds-suc cs fuel)
                  later.0)
        ] in
      (
        at_scan,
        elim (dec_lt (length got) 8) [
          | yes short ↦
              go (suc (suc (suc (rounds cs fuel)))) outer (scan 0) r r2
                (outer-short read got c s' r f took short)
                (subst (λ k. Delivered read m bytes small (suc k) (scan 0) r2)
                  (rounds-suc cs (suc fuel) ∙ ap suc (rounds-suc cs fuel)) latest.0)
          | no enough ↦
              go (suc (suc (suc (rounds cs fuel)))) outer (scan 0) r r
                (outer-enough read m bytes small got r f (omega arith)) at_scan
        ],
      )

  new-IsFresh : (s : S) → IsFresh [] (new_message_reader s)
  unfolding new_message_reader
  new-IsFresh s = record {
    size = length-replicate {A = ℕ} buffer_size 0;
    at_start = refl;
    held = refl;
    front = refl;
  }

  -- A new reader returns the message whose frame the io.Reader gives, in pieces of any number and
  -- size that are not empty, and has then read just that frame. Two rounds for each piece and two
  -- more are enough.
  pub read_message-chunks :
      (s : S) (cs : List (List ℕ)) (fuel : ℕ)
      → Feeds read s cs
      → flatten cs ≡ frame m
      → 2 * length cs + 2 ≤ fuel
      → (r : Reader S) × (read_message read fuel (new_message_reader s) ≡ some (ok m, r))
        × (r.pos ≡ frame_size m)
        × (r.count ≡ frame_size m)
  unfolding read_message new_message_reader
  read_message-chunks s cs fuel feeds e enough =
      subst (λ k. Delivered read m bytes small k outer (new_message_reader s)) fuel_lem
        (deliver feeds [] (new_message_reader s) refl (new-IsFresh s) e
          (fuel - (2 * length cs + 2))).1
    where
      fuel_lem : suc (suc (rounds cs (fuel - (2 * length cs + 2)))) ≡ fuel
      fuel_lem = omega (arith, rounds-length cs (fuel - (2 * length cs + 2)), enough)
