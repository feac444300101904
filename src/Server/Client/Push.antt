-- ===== src/Server/Client/Push.antt =====
-- What a subscriber is sent for a message that matched a pattern: `deliverToPatterns` hands
-- `SendPubSubMessage` the pattern and the channel with a zero byte between them.
use postkeys.Base.{◌≡◌, ◌≢◌, refl, some, [], ◌∷◌, ◌++◌, arith, All}
use postkeys.Base.{compare_numbers}
use postkeys.Base.Bytes.{Bytes, codes, compare_bytes, same_bytes}
use postkeys.Server.Client.{ClientState, split_zero, pubsub_message, out_of_band}

abbrev pub HasNoZero : Bytes → Type 0
HasNoZero = All (λ c. c ≢ 0)

split_zero-append :
    (pattern channel : Bytes)
    → HasNoZero pattern
    → split_zero (pattern ++ 0 ∷ channel) ≡ some (pattern, channel)
unfolding split_zero
split_zero-append [] channel h = refl
split_zero-append (c ∷ pattern) channel h = ground (arith, split_zero-append pattern channel)

-- If the pattern has no zero byte, its subscriber is told the pattern, the channel and the payload.
pub pubsub_message-pmessage :
    (pattern channel payload : Bytes) (c : ClientState)
    → HasNoZero pattern
    → pubsub_message (codes "pmessage") (pattern ++ 0 ∷ channel) payload c
      ≡ some (out_of_band c (codes "pmessage" ∷ (pattern ∷ (channel ∷ (payload ∷ [])))))
unfolding pubsub_message
pubsub_message-pmessage pattern channel payload c h =
    unfold same_bytes in ground (arith, split_zero-append pattern channel h)
