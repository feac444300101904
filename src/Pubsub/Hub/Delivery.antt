-- ===== src/Pubsub/Hub/Delivery.antt =====
-- Who gets a message.
use postkeys.Base.{ℕ, ◌≡◌, refl, Bool, true, false, ◌&&◌, ◌||◌, List, [], ◌∷◌, ◌++◌, length}
use postkeys.Base.{arith, ◌==◌, compare_numbers, length-append, if◌then◌else◌, Bool-cases, inl, inr}
use postkeys.Base.Bytes.{Bytes, codes, compare_bytes, same_bytes_iff}
use postkeys.Base.Map.{Map, keys}
use postkeys.Base.Set.{members, contains, has, NodupKeys, has-nil, has-cons, has_tail}
use postkeys.Base.{Option, none, some}
use postkeys.Base.Int.{pos}
use postkeys.Resp.{integer, err_reply}
use postkeys.Handler.Backend.{Backend}
use postkeys.Handler.Pubsub.{handle_publish, published}
use postkeys.Pubsub.Registry.Membership.{is_member}
use postkeys.Pubsub.Registry.Invariant.{IsValid}
use postkeys.Pubsub.Hub.{Hub, Send, message, pmessage, match_pattern, count_matching}
use postkeys.Pubsub.Hub.{count_subscribers, message_to, deliver_to_channel, pmessage_to}
use postkeys.Pubsub.Hub.{deliver_matching, deliver_to_patterns, deliver}

module _ (channel payload : Bytes) where
  length-message_to : (ids : List ℕ) → length (message_to channel payload ids) ≡ length ids
  unfolding message_to
  length-message_to [] = refl
  length-message_to (id ∷ ids) = omega (arith, length-message_to ids)

  length-pmessage_to :
      (p : Bytes) (ids : List ℕ) → length (pmessage_to p channel payload ids) ≡ length ids
  unfolding pmessage_to
  length-pmessage_to p [] = refl
  length-pmessage_to p (id ∷ ids) = omega (arith, length-pmessage_to p ids)

  length-deliver_matching :
      (m : Map Bytes (List ℕ))
      → length (deliver_matching m channel payload) ≡ count_matching m channel
  unfolding deliver_matching count_matching
  length-deliver_matching [] = refl
  length-deliver_matching ((p, subs) ∷ m) = ground (
    arith,
    length-deliver_matching m,
    length-pmessage_to p subs,
    length-append (pmessage_to p channel payload subs) (deliver_matching m channel payload),
  )

  -- The number that `countSubscribers` finds is the number of messages that the hub sends while its
  -- subscriptions stay as they are.
  length-deliver : (h : Hub) → length (deliver channel payload h) ≡ count_subscribers channel h
  unfolding deliver count_subscribers deliver_to_channel deliver_to_patterns
  length-deliver h = ground (
    arith,
    length-append (message_to channel payload (members channel h.channels.by_name))
        (deliver_matching h.patterns.by_name channel payload),
    length-message_to (members channel h.channels.by_name),
    length-deliver_matching h.patterns.by_name,
  )

-- The sends hold this `message` for `id`, or this `pmessage` for `id` on account of `pattern`.
pub gets_message : ℕ → Bytes → Bytes → List Send → Bool
gets_message id c p [] = false
gets_message id c p (message j channel payload ∷ sends) =
    (j == id && (channel == c && payload == p)) || gets_message id c p sends
gets_message id c p (pmessage j pattern channel payload ∷ sends) = gets_message id c p sends

pub gets_pmessage : ℕ → Bytes → Bytes → Bytes → List Send → Bool
gets_pmessage id pattern c p [] = false
gets_pmessage id pattern c p (message j channel payload ∷ sends) =
    gets_pmessage id pattern c p sends
gets_pmessage id pattern c p (pmessage j q channel payload ∷ sends) =
    ((j == id && q == pattern) && (channel == c && payload == p))
    || gets_pmessage id pattern c p sends

gets_message-append :
    (id : ℕ) (c p : Bytes) (xs ys : List Send)
    → gets_message id c p (xs ++ ys) ≡ (gets_message id c p xs || gets_message id c p ys)
unfolding gets_message
gets_message-append id c p [] ys = refl
gets_message-append id c p (message j d q ∷ xs) ys =
    ground (arith, gets_message-append id c p xs ys)
gets_message-append id c p (pmessage j q d r ∷ xs) ys =
    ground (arith, gets_message-append id c p xs ys)

gets_pmessage-append :
    (id : ℕ) (pattern c p : Bytes) (xs ys : List Send)
    → gets_pmessage id pattern c p (xs ++ ys)
      ≡ (gets_pmessage id pattern c p xs || gets_pmessage id pattern c p ys)
unfolding gets_pmessage
gets_pmessage-append id pattern c p [] ys = refl
gets_pmessage-append id pattern c p (message j d q ∷ xs) ys =
    ground (arith, gets_pmessage-append id pattern c p xs ys)
gets_pmessage-append id pattern c p (pmessage j q d r ∷ xs) ys =
    ground (arith, gets_pmessage-append id pattern c p xs ys)

-- `sent` says whether the message that is looked for is the one that is sent.
module _ (channel payload c p : Bytes) (id : ℕ) where
  abbrev sent : Bool
  sent = channel == c && payload == p

  gets_message-message_to :
      (ids : List ℕ)
      → gets_message id c p (message_to channel payload ids) ≡ (sent && contains id ids)
  unfolding gets_message message_to contains
  gets_message-message_to [] = ground arith
  gets_message-message_to (j ∷ ids) = ground (arith, gets_message-message_to ids)

  gets_message-pmessage_to :
      (q : Bytes) (ids : List ℕ) → gets_message id c p (pmessage_to q channel payload ids) ≡ false
  unfolding gets_message pmessage_to
  gets_message-pmessage_to q [] = refl
  gets_message-pmessage_to q (j ∷ ids) = gets_message-pmessage_to q ids

  gets_message-deliver_matching :
      (m : Map Bytes (List ℕ)) → gets_message id c p (deliver_matching m channel payload) ≡ false
  unfolding deliver_matching gets_message
  gets_message-deliver_matching [] = refl
  gets_message-deliver_matching ((q, subs) ∷ m) = ground (
    arith,
    gets_message-append id c p (pmessage_to q channel payload subs)
        (deliver_matching m channel payload),
    gets_message-pmessage_to q subs,
    gets_message-deliver_matching m,
  )

  module _ (pattern : Bytes) where
    gets_pmessage-message_to :
        (ids : List ℕ) → gets_pmessage id pattern c p (message_to channel payload ids) ≡ false
    unfolding gets_pmessage message_to
    gets_pmessage-message_to [] = refl
    gets_pmessage-message_to (j ∷ ids) = gets_pmessage-message_to ids

    gets_pmessage-pmessage_to :
        (q : Bytes) (ids : List ℕ)
        → gets_pmessage id pattern c p (pmessage_to q channel payload ids)
          ≡ (sent && (q == pattern && contains id ids))
    unfolding gets_pmessage pmessage_to contains
    gets_pmessage-pmessage_to q [] = ground arith
    gets_pmessage-pmessage_to q (j ∷ ids) = ground (arith, gets_pmessage-pmessage_to q ids)

    gets_pmessage-deliver_matching :
        (m : Map Bytes (List ℕ))
        → NodupKeys m
        → gets_pmessage id pattern c p (deliver_matching m channel payload)
          ≡ (sent && (match_pattern pattern channel && has pattern id m))
    unfolding deliver_matching gets_pmessage keys
    gets_pmessage-deliver_matching [] h = ground (arith, has-nil {X = ℕ} pattern id)
    gets_pmessage-deliver_matching ((q, subs) ∷ m) h = elim (Bool-cases (match_pattern q channel)) [
      | inl matched ↦ rw matched (
          rw
            (
              gets_pmessage-append,
              gets_pmessage-pmessage_to,
              gets_pmessage-deliver_matching m h.1,
              has-cons,
            )
            (joined matched))
      | inr missed ↦
          rw missed (rw (gets_pmessage-deliver_matching m h.1, has-cons) (skipped missed))
    ]
      where
        joined :
            match_pattern q channel ≡ true
            → (sent && (q == pattern && contains id subs)
                || sent && (match_pattern pattern channel && has pattern id m))
              ≡ (sent
                  && (match_pattern pattern channel
                      && (if q == pattern then contains id subs else has pattern id m)))
        joined matched = elim (Bool-cases (q == pattern)) [
          | inl same ↦ ground (arith, has_tail pattern q id subs m h same, same_bytes_iff q pattern)
          | inr other ↦ ground arith
        ]

        skipped :
            match_pattern q channel ≡ false
            → (sent && (match_pattern pattern channel && has pattern id m)) ≡ (
                sent
                && (match_pattern pattern channel
                    && (if q == pattern then contains id subs else has pattern id m)))
        skipped missed = ground (arith, same_bytes_iff q pattern)

-- In valid registries what a subscriber gets is the message that was sent and no other, on the channel it was
-- sent to: as a message if it subscribes to that channel, and as a pattern message on account of each
-- pattern that it subscribes to and that matches the channel.
pub deliver_lem :
    (channel payload : Bytes) (h : Hub)
    → IsValid h.patterns
    → (id : ℕ) (pattern c p : Bytes)
    → (gets_message id c p (deliver channel payload h)
        ≡ ((channel == c && payload == p) && is_member h.channels channel id))
      × (gets_pmessage id pattern c p (deliver channel payload h) ≡ (
          (channel == c && payload == p)
          && (match_pattern pattern channel && is_member h.patterns pattern id)))
unfolding deliver deliver_to_channel deliver_to_patterns has
deliver_lem channel payload h v id pattern c p =
    let subs = members channel h.channels.by_name in
    let more = deliver_matching h.patterns.by_name channel payload in
    (
      ground (
        arith,
        gets_message-append id c p (message_to channel payload subs) more,
        gets_message-message_to channel payload c p id subs,
        gets_message-deliver_matching channel payload c p id h.patterns.by_name,
      ),
      ground (
        arith,
        gets_pmessage-append id pattern c p (message_to channel payload subs) more,
        gets_pmessage-message_to channel payload c p id pattern subs,
        gets_pmessage-deliver_matching channel payload c p id pattern h.patterns.by_name
            v.keys_once,
      ),
    )

-- PUBLISH is passed on once and replies, where that works, with the number of messages that the hub sends for it
-- while its subscriptions stay as they are; where it fails, with the error.
pub handle_publish-deliver :
    (B : Backend) (h : Hub) (channel payload : Bytes) (w : B.World)
    → handle_publish B h channel payload w ≡ (
      elim (B.publish channel payload w).0 [
        | none ↦ integer (pos (length (deliver channel payload h)))
        | some text ↦ err_reply (codes "ERR " ++ text)
      ],
      (B.publish channel payload w).1,
    )
unfolding handle_publish published
handle_publish-deliver B h channel payload w =
    reply (B.publish channel payload w).0 (B.publish channel payload w).1
  where
    reply :
        (o : Option Bytes) (w' : B.World)
        → published B channel h (o, w') ≡ (
          elim o [
            | none ↦ integer (pos (length (deliver channel payload h)))
            | some text ↦ err_reply (codes "ERR " ++ text)
          ],
          w',
        )
    reply none w' = rw (length-deliver channel payload h) refl
    reply (some text) w' = refl
