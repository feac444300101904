-- ===== src/Handler/Pubsub.antt =====
-- internal/handler/handler_pubsub.go: the subscription commands, on the hub and the client's state.
use postkeys.Base.{ℕ, ◌+◌, Option, none, some, List, [], ◌∷◌, ◌++◌, ◌&&◌, if◌then◌else◌, ◌==◌}
use postkeys.Base.{compare_numbers}
use postkeys.Base.Int.{pos}
use postkeys.Base.Bytes.{Bytes, codes}
use postkeys.Resp.{Value, integer, err_reply, err_wrong_args}
use postkeys.Pubsub.Hub
use postkeys.Pubsub.Hub.{
  Hub, get_subscription_count, get_subscribed_channels, get_subscribed_patterns,
}
use postkeys.Pubsub.Hub.{build_subscribe_response, build_unsubscribe_response, count_subscribers}
use postkeys.Pubsub.Hub.{build_psubscribe_response, build_punsubscribe_response}
use postkeys.Server.Client.{ClientState, enter_pubsub_mode, exit_pubsub_mode}
use postkeys.Handler.Backend.{Backend}

-- One reply for each name, its count with the count of the other kind of subscriptions added.
build_replies : (Bytes → ℕ → Value) → ℕ → List Bytes → List ℕ → List Value
build_replies build others (name ∷ names) (n ∷ counts) =
    build name (n + others) ∷ build_replies build others names counts
build_replies build others _ _ = []

-- Without subscriptions of either kind the client leaves the mode.
leave_if_none : ℕ × ℕ → ClientState → ClientState
leave_if_none (channel_count, pattern_count) c =
    if channel_count == 0 && pattern_count == 0 then exit_pubsub_mode c else c

unfoldable pub handle_subscribe : Hub → ClientState → List Bytes → List Value × Hub × ClientState
unfolding build_replies
handle_subscribe h c [] = (err_wrong_args (codes "subscribe") ∷ [], h, c)
handle_subscribe h c (name ∷ names) =
    let (h', counts) = Hub.subscribe c.id (name ∷ names) h in
    let (channel_count, pattern_count) = get_subscription_count c.id h' in
    (
      build_replies build_subscribe_response pattern_count (name ∷ names) counts,
      h',
      enter_pubsub_mode c,
    )

unfoldable pub handle_psubscribe : Hub → ClientState → List Bytes → List Value × Hub × ClientState
unfolding build_replies
handle_psubscribe h c [] = (err_wrong_args (codes "psubscribe") ∷ [], h, c)
handle_psubscribe h c (name ∷ names) =
    let (h', counts) = Hub.psubscribe c.id (name ∷ names) h in
    let (channel_count, pattern_count) = get_subscription_count c.id h' in
    (
      build_replies build_psubscribe_response channel_count (name ∷ names) counts,
      h',
      enter_pubsub_mode c,
    )

-- The names to unsubscribe from; with none given, those that there are.
names_or_all : List Bytes → List Bytes → List Bytes
names_or_all [] all = all
names_or_all (name ∷ names) all = name ∷ names

-- With nothing to unsubscribe from there is one reply, for the empty name.
unsubscribe_replies : (Bytes → ℕ → Value) → ℕ → List Bytes → List ℕ → List Value
unsubscribe_replies build others [] counts = build [] others ∷ []
unsubscribe_replies build others (name ∷ names) counts =
    build_replies build others (name ∷ names) counts

unfoldable pub handle_unsubscribe : Hub → ClientState → List Bytes → List Value × Hub × ClientState
unfolding build_replies names_or_all leave_if_none unsubscribe_replies
handle_unsubscribe h c given =
    let names = names_or_all given (get_subscribed_channels c.id h) in
    let (h', counts) = Hub.unsubscribe c.id names h in
    let left = get_subscription_count c.id h' in
    (unsubscribe_replies build_unsubscribe_response left.1 names counts, h', leave_if_none left c)

unfoldable pub handle_punsubscribe : Hub → ClientState → List Bytes → List Value × Hub × ClientState
unfolding build_replies names_or_all leave_if_none unsubscribe_replies
handle_punsubscribe h c given =
    let names = names_or_all given (get_subscribed_patterns c.id h) in
    let (h', counts) = Hub.punsubscribe c.id names h in
    let left = get_subscription_count c.id h' in
    (unsubscribe_replies build_punsubscribe_response left.0 names counts, h', leave_if_none left c)

module _ (B : Backend) where
  open B use {World, publish}

  unfoldable pub published : Bytes → Hub → Option Bytes × World → Value × World
  published channel h (none, w) = (integer (pos (count_subscribers channel h)), w)
  published channel h (some text, w) = (err_reply (codes "ERR " ++ text), w)

  unfoldable pub handle_publish : Hub → Bytes → Bytes → World → Value × World
  unfolding published
  handle_publish h channel message w = published channel h (publish channel message w)
