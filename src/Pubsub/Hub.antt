-- ===== src/Pubsub/Hub.antt =====
-- The `Hub` of internal/pubsub/hub.go, without its connection to PostgreSQL: its subscriptions, the
-- deliveries of a message, and the replies of the subscription commands. Go's iteration order over a
-- map is not fixed; the model takes the order in which the keys came.
pub mod Delivery
use postkeys.Base.{ℕ, ◌+◌, Bool, true, false, Option, none, some, List, [], ◌∷◌, ◌++◌, length}
use postkeys.Base.{if◌then◌else◌}
use postkeys.Base.Int.{pos}
use postkeys.Base.Bytes.{Bytes, codes, compare_bytes}
use postkeys.Base.{compare_numbers}
use postkeys.Base.Map.{Map}
use postkeys.Base.Set.{members}
use postkeys.Resp.{Value, array, bulk_string, integer, nil, cons}
use postkeys.Pubsub.Registry
use postkeys.Pubsub.Registry.{Registry}
use postkeys.Pubsub.Glob.{glob_match}

-- `channels` holds `subscriptions` and `subscribers`; `patterns` holds `patterns` and `subPatterns`.
pub record Hub : Type 0 where
  pub channels : Registry
  pub patterns : Registry

abbrev pub new_hub : Hub
new_hub = record { channels = Registry.empty; patterns = Registry.empty }

unfoldable pub subscribe : ℕ → List Bytes → Hub → Hub × List ℕ
subscribe id names h =
    let (r, counts) = Registry.subscribe id names h.channels in (record h { channels = r }, counts)

unfoldable pub unsubscribe : ℕ → List Bytes → Hub → Hub × List ℕ
unsubscribe id names h =
    let (r, counts) = Registry.unsubscribe id names h.channels in
    (record h { channels = r }, counts)

unfoldable pub psubscribe : ℕ → List Bytes → Hub → Hub × List ℕ
psubscribe id names h =
    let (r, counts) = Registry.subscribe id names h.patterns in (record h { patterns = r }, counts)

unfoldable pub punsubscribe : ℕ → List Bytes → Hub → Hub × List ℕ
punsubscribe id names h =
    let (r, counts) = Registry.unsubscribe id names h.patterns in
    (record h { patterns = r }, counts)

unfoldable pub remove_subscriber : ℕ → Hub → Hub
remove_subscriber id h = record {
  channels = Registry.remove_subscriber id h.channels;
  patterns = Registry.remove_subscriber id h.patterns;
}

unfoldable pub get_subscribed_channels : ℕ → Hub → List Bytes
get_subscribed_channels id h = members id h.channels.by_id

unfoldable pub get_subscribed_patterns : ℕ → Hub → List Bytes
get_subscribed_patterns id h = members id h.patterns.by_id

-- The numbers of the channels and of the patterns of a subscriber.
unfoldable pub get_subscription_count : ℕ → Hub → ℕ × ℕ
get_subscription_count id h =
    (length (members id h.channels.by_id), length (members id h.patterns.by_id))

-- `glob_match` always ends (`Glob.Ends`), so the first case is never met.
unfoldable pub match_pattern : Bytes → Bytes → Bool
match_pattern pattern channel = elim (glob_match pattern channel) [ none ↦ false | some b ↦ b ]

-- The loop of `countSubscribers` over the patterns.
count_matching : Map Bytes (List ℕ) → Bytes → ℕ
count_matching [] channel = 0
count_matching ((pattern, subs) ∷ m) channel =
    (if match_pattern pattern channel then length subs else 0) + count_matching m channel

unfoldable pub count_subscribers : Bytes → Hub → ℕ
unfolding count_matching
count_subscribers channel h =
    length (members channel h.channels.by_name) + count_matching h.patterns.by_name channel

-- A call of `SendPubSubMessage` on subscriber `id`.
pub data Send : Type 0 where
  message : ℕ → Bytes → Bytes → Send
  pmessage : ℕ → Bytes → Bytes → Bytes → Send

message_to : Bytes → Bytes → List ℕ → List Send
message_to channel payload [] = []
message_to channel payload (id ∷ ids) = message id channel payload ∷ message_to channel payload ids

unfoldable pub deliver_to_channel : Bytes → Bytes → Hub → List Send
unfolding message_to
deliver_to_channel channel payload h =
    message_to channel payload (members channel h.channels.by_name)

pmessage_to : Bytes → Bytes → Bytes → List ℕ → List Send
pmessage_to pattern channel payload [] = []
pmessage_to pattern channel payload (id ∷ ids) =
    pmessage id pattern channel payload ∷ pmessage_to pattern channel payload ids

-- The loop that collects the matches.
deliver_matching : Map Bytes (List ℕ) → Bytes → Bytes → List Send
deliver_matching [] channel payload = []
deliver_matching ((pattern, subs) ∷ m) channel payload =
    (if match_pattern pattern channel then pmessage_to pattern channel payload subs else [])
    ++ deliver_matching m channel payload

unfoldable pub deliver_to_patterns : Bytes → Bytes → Hub → List Send
unfolding pmessage_to deliver_matching
deliver_to_patterns channel payload h = deliver_matching h.patterns.by_name channel payload

-- What `listenLoop` does with a message.
unfoldable pub deliver : Bytes → Bytes → Hub → List Send
deliver channel payload h =
    deliver_to_channel channel payload h ++ deliver_to_patterns channel payload h

-- The replies.
abbrev reply_of : Bytes → Bytes → ℕ → Value
reply_of kind name count =
    array (cons (bulk_string kind) (cons (bulk_string name) (cons (integer (pos count)) nil)))

unfoldable pub build_subscribe_response : Bytes → ℕ → Value
build_subscribe_response channel count = reply_of (codes "subscribe") channel count

unfoldable pub build_unsubscribe_response : Bytes → ℕ → Value
build_unsubscribe_response channel count = reply_of (codes "unsubscribe") channel count

unfoldable pub build_psubscribe_response : Bytes → ℕ → Value
build_psubscribe_response pattern count = reply_of (codes "psubscribe") pattern count

unfoldable pub build_punsubscribe_response : Bytes → ℕ → Value
build_punsubscribe_response pattern count = reply_of (codes "punsubscribe") pattern count
