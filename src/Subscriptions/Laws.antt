-- ===== src/Subscriptions/Laws.antt =====
-- What subscribing and unsubscribing do to the handlers that `OnMessageRx` calls.
use qdp.Base.{
  ℕ, zero, suc, ◌+◌, ◌≡◌, refl, sym, ap, ap₂, ◌∙◌, ◌==◌, if◌then◌else◌, List, [], ◌∷◌, ◌++◌,
  append_assoc, append-nil, Bool, true, false, ◌&&◌, length, drop, take-append, drop-append, arith,
  Bool-cases, ==-refl, ◌||◌, inl, inr, some, length-append,
}
use qdp.Result.{ok, panic, ◌>>=◌}
use qdp.Message.{Message}
use qdp.Topic.{bytes_eq, match_topic}
use qdp.Topic.Split.{bytes_eq_refl}
use qdp.Subscriptions.{
  new_subscription_manager, Handler, pointer, closure, handler_eq, Subscription,
  SubscriptionManager, subscribe, get_elem?, remove_at, is_subscribed, unsubscribe_loop,
  unsubscribe, called, on_message_rx,
}

called-append :
    (xs ys : List Subscription) (msg : Message)
    → called (xs ++ ys) msg ≡ called xs msg ++ called ys msg
unfolding called
called-append [] ys msg = refl
called-append (x ∷ xs) ys msg = elim (Bool-cases (match_topic x.topic msg.topic)) [
  | inl e ↦ rw e (ap (◌∷◌ x.handler) (called-append xs ys msg))
  | inr e ↦ rw e (called-append xs ys msg)
]

-- A new subscription comes last: after `Subscribe` a message goes to the handlers that it went to
-- before, in the same order, and then to the new one if the pattern matches.
pub on_message_rx-subscribe :
    (topic : List ℕ) (handler : Handler) (sm : SubscriptionManager) (msg : Message)
    → on_message_rx (subscribe topic handler sm) msg
      ≡ on_message_rx sm msg ++ (if match_topic topic msg.topic then handler ∷ [] else [])
unfolding on_message_rx subscribe called
on_message_rx-subscribe topic handler sm msg = called-append sm.subscriptions _ msg

pub on_message_rx-new_subscription_manager :
    (msg : Message) → on_message_rx new_subscription_manager msg ≡ []
unfolding on_message_rx new_subscription_manager called
on_message_rx-new_subscription_manager msg = refl

-- Keep the elements for which the test is false.
abbrev pub reject : (Subscription → Bool) → List Subscription → List Subscription
reject test [] = []
reject test (x ∷ xs) = let rest = reject test xs in if test x then rest else x ∷ rest

reject-append :
    (test : Subscription → Bool) (xs ys : List Subscription)
    → reject test (xs ++ ys) ≡ reject test xs ++ reject test ys
reject-append test [] ys = refl
reject-append test (x ∷ xs) ys = elim (Bool-cases (test x)) [
  | inl e ↦ rw e (reject-append test xs ys)
  | inr e ↦ rw e (ap (◌∷◌ x) (reject-append test xs ys))
]

-- The comparison with a handler that can be compared.
abbrev pub same_handler : ℕ → ℕ → Handler → Bool
same_handler t v (pointer u w) = u == t && w == v
same_handler t v (closure u w) = false

abbrev pub same_subscription : List ℕ → ℕ → ℕ → Subscription → Bool
same_subscription topic t v sub = bytes_eq sub.topic topic && same_handler t v sub.handler

handler_eq-pointer : (t v : ℕ) (h : Handler) → handler_eq h (pointer t v) ≡ ok (same_handler t v h)
unfolding handler_eq
handler_eq-pointer t v (pointer u w) = refl
handler_eq-pointer t v (closure u w) = refl

is_subscribed-pointer :
    (topic : List ℕ) (t v : ℕ) (sub : Subscription)
    → is_subscribed topic (pointer t v) sub ≡ ok (same_subscription topic t v sub)
unfolding is_subscribed
is_subscribed-pointer topic t v sub = elim (Bool-cases (bytes_eq sub.topic topic)) [
  | inl e ↦ rw e (handler_eq-pointer t v sub.handler)
  | inr e ↦ rw e
]

-- The comparison with a func value meets one of the same type.
abbrev pub same_type : ℕ → Handler → Bool
same_type t (pointer u w) = false
same_type t (closure u w) = u == t

abbrev pub clashes : List ℕ → ℕ → Subscription → Bool
clashes topic t sub = bytes_eq sub.topic topic && same_type t sub.handler

handler_eq-closure :
    (t v : ℕ) (h : Handler)
    → handler_eq h (closure t v) ≡ (if same_type t h then panic else ok false)
unfolding handler_eq
handler_eq-closure t v (pointer u w) = refl
handler_eq-closure t v (closure u w) = refl

is_subscribed-closure :
    (topic : List ℕ) (t v : ℕ) (sub : Subscription)
    → is_subscribed topic (closure t v) sub ≡ (if clashes topic t sub then panic else ok false)
unfolding is_subscribed
is_subscribed-closure topic t v sub = elim (Bool-cases (bytes_eq sub.topic topic)) [
  | inl e ↦ rw e (handler_eq-closure t v sub.handler)
  | inr e ↦ rw e
]

-- A list that is not empty has a last element.
snoc :
    (subs : List Subscription) (i : ℕ)
    → length subs ≡ suc i
    → (before : List Subscription) × (sub : Subscription) × (subs ≡ before ++ (sub ∷ []))
      × (length before ≡ i)
snoc [] i h = absurd (omega arith)
snoc (x ∷ []) i h = ([], x, refl, omega arith)
snoc (x ∷ y ∷ subs) zero h = absurd (omega arith)
snoc (x ∷ y ∷ subs) (suc i) h =
    let (before, sub, e, l) = snoc (y ∷ subs) i (omega arith) in
    (x ∷ before, sub, ap (◌∷◌ x) e, omega arith)

get_elem?-append :
    (before after : List Subscription) (sub : Subscription) (i : ℕ)
    → length before ≡ i
    → get_elem? (before ++ (sub ∷ after)) i ≡ some sub
get_elem?-append [] after sub zero h = refl
get_elem?-append [] after sub (suc i) h = absurd (omega arith)
get_elem?-append (x ∷ before) after sub zero h = absurd (omega arith)
get_elem?-append (x ∷ before) after sub (suc i) h =
    get_elem?-append before after sub i (omega arith)

remove_at-append :
    (before after : List Subscription) (sub : Subscription) (i : ℕ)
    → length before ≡ i
    → remove_at i (before ++ (sub ∷ after)) ≡ before ++ after
remove_at-append before after sub i h = ap₂ ◌++◌ (take-append i before (sub ∷ after) h) (
    ap (drop (i + 1)) (sym (append_assoc before (sub ∷ []) after))
    ∙ drop-append (i + 1) (before ++ (sub ∷ [])) after
        (omega (arith, length-append before (sub ∷ []))))

-- One round at a known last element.
unsubscribe_loop-step :
    (topic : List ℕ) (handler : Handler) (before after : List Subscription) (sub : Subscription)
    (i : ℕ)
    → length before ≡ i
    → unsubscribe_loop topic handler (suc i) (before ++ (sub ∷ after)) ≡ (
        is_subscribed topic handler sub >>= λ found.
        unsubscribe_loop topic handler i
          (if found then before ++ after else before ++ (sub ∷ after)))
unfolding unsubscribe_loop
unsubscribe_loop-step topic handler before after sub i h =
    rw (get_elem?-append before after sub i h, unsubscribe_loop)
      (ap
        (λ rest. is_subscribed topic handler sub >>= λ found.
          unsubscribe_loop topic handler i (if found then rest else before ++ (sub ∷ after)))
        (remove_at-append before after sub i h))

unsubscribe_loop-pointer :
    (topic : List ℕ) (t v n : ℕ) (before after : List Subscription)
    → length before ≡ n
    → unsubscribe_loop topic (pointer t v) n (before ++ after)
      ≡ ok (reject (same_subscription topic t v) before ++ after)
unsubscribe_loop-pointer topic t v zero [] after h = unfold unsubscribe_loop in refl
unsubscribe_loop-pointer topic t v zero (x ∷ before) after h = absurd (omega arith)
unsubscribe_loop-pointer topic t v (suc i) subs after h =
    let (before, sub, e, l) = snoc subs i h in
    let test : Subscription → Bool = same_subscription topic t v in
    let regroup : (before ++ (sub ∷ [])) ++ after ≡ before ++ (sub ∷ after) =
      append_assoc before (sub ∷ []) after in
    rw (e, regroup, reject-append test before (sub ∷ []))
      (unsubscribe_loop-step topic (pointer t v) before after sub i l
        ∙ rw (is_subscribed-pointer topic t v sub) (elim (Bool-cases (test sub)) [
          | inl found ↦ rw (found, append-nil) (unsubscribe_loop-pointer topic t v i before after l)
          | inr other ↦
              rw (other, append_assoc) (unsubscribe_loop-pointer topic t v i before (sub ∷ after) l)
        ]))

-- `Unsubscribe` with a handler that can be compared takes out every subscription of that pattern and
-- handler, keeps the others in their order, and does not panic.
pub unsubscribe-reject :
    (topic : List ℕ) (t v : ℕ) (sm : SubscriptionManager)
    → unsubscribe topic (pointer t v) sm
      ≡ ok (record { subscriptions = reject (same_subscription topic t v) sm.subscriptions })
unfolding unsubscribe
unsubscribe-reject topic t v sm = ap (λ r. r >>= λ subs. ok (record { subscriptions = subs })) whole
  where
    subs : List Subscription
    subs = sm.subscriptions

    whole :
        unsubscribe_loop topic (pointer t v) (length subs) subs
        ≡ ok (reject (same_subscription topic t v) subs)
    whole =
        ap (unsubscribe_loop topic (pointer t v) (length subs)) (sym (append-nil subs))
        ∙ unsubscribe_loop-pointer topic t v (length subs) subs [] refl
        ∙ ap ok (append-nil (reject (same_subscription topic t v) subs))

-- Some element passes the test.
abbrev pub some_of : (Subscription → Bool) → List Subscription → Bool
some_of test [] = false
some_of test (x ∷ xs) = test x || some_of test xs

some_of-append :
    (test : Subscription → Bool) (xs ys : List Subscription)
    → some_of test (xs ++ ys) ≡ (some_of test xs || some_of test ys)
some_of-append test [] ys = refl
some_of-append test (x ∷ xs) ys = elim (Bool-cases (test x)) [
  | inl e ↦ rw e
  | inr e ↦ rw e (some_of-append test xs ys)
]

or-true : (b : Bool) → (b || true) ≡ true
or-true true = refl
or-true false = refl

or-false : (b : Bool) → (b || false) ≡ b
or-false true = refl
or-false false = refl

unsubscribe_loop-closure :
    (topic : List ℕ) (t v n : ℕ) (before after : List Subscription)
    → length before ≡ n
    → unsubscribe_loop topic (closure t v) n (before ++ after)
      ≡ (if some_of (clashes topic t) before then panic else ok (before ++ after))
unsubscribe_loop-closure topic t v zero [] after h = unfold unsubscribe_loop in refl
unsubscribe_loop-closure topic t v zero (x ∷ before) after h = absurd (omega arith)
unsubscribe_loop-closure topic t v (suc i) subs after h =
    let (before, sub, e, l) = snoc subs i h in
    let test : Subscription → Bool = clashes topic t in
    let regroup : (before ++ (sub ∷ [])) ++ after ≡ before ++ (sub ∷ after) =
      append_assoc before (sub ∷ []) after in
    rw (e, regroup, some_of-append test before (sub ∷ []))
      (unsubscribe_loop-step topic (closure t v) before after sub i l
        ∙ rw (is_subscribed-closure topic t v sub) (elim (Bool-cases (test sub)) [
          | inl clash ↦ rw (clash, or-true (some_of test before))
          | inr other ↦
              rw (other, or-false (some_of test before))
                (unsubscribe_loop-closure topic t v i before (sub ∷ after) l)
        ]))

-- `Unsubscribe` with a handler of a func type panics if the pattern has a subscription with a
-- handler of the same type, and otherwise changes nothing.
pub unsubscribe_closure :
    (topic : List ℕ) (t v : ℕ) (sm : SubscriptionManager)
    → unsubscribe topic (closure t v) sm
      ≡ (if some_of (clashes topic t) sm.subscriptions then panic else ok sm)
unfolding unsubscribe
unsubscribe_closure topic t v sm =
    ap (λ r. r >>= λ rest. ok (record { subscriptions = rest })) whole
    ∙ (elim (Bool-cases (some_of (clashes topic t) sm.subscriptions)) [
      | inl e ↦ rw e
      | inr e ↦ rw e
    ])
  where
    subs : List Subscription
    subs = sm.subscriptions

    whole :
        unsubscribe_loop topic (closure t v) (length subs) subs
        ≡ (if some_of (clashes topic t) subs then panic else ok subs)
    whole =
        ap (unsubscribe_loop topic (closure t v) (length subs)) (sym (append-nil subs))
        ∙ unsubscribe_loop-closure topic t v (length subs) subs [] refl
        ∙ ap (λ r. if some_of (clashes topic t) subs then panic else ok r) (append-nil subs)

-- A subscription that was made with a func value cannot be taken back: `Unsubscribe` with the same
-- pattern and the same value panics.
pub unsubscribe-subscribe_closure :
    (topic : List ℕ) (t v : ℕ) (sm : SubscriptionManager)
    → unsubscribe topic (closure t v) (subscribe topic (closure t v) sm) ≡ panic
unsubscribe-subscribe_closure topic t v sm =
    unsubscribe_closure topic t v (subscribe topic (closure t v) sm)
    ∙ (unfold subscribe in
        rw (
          some_of-append (clashes topic t) sm.subscriptions _,
          bytes_eq_refl topic,
          ==-refl t,
          or-true (some_of (clashes topic t) sm.subscriptions),
        ))
