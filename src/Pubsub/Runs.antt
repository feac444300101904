-- ===== src/Pubsub/Runs.antt =====
-- The hub's operations at concrete subscriptions.
use postkeys.Base.{◌≡◌, Bool, false, not, ◌&&◌, compare_numbers, List, [], ◌∷◌}
use postkeys.Base.{some, length, arith}
use postkeys.Base.Bytes.{Bytes, compare_bytes, codes, same_bytes}
use postkeys.Base.Int.{pos}
use postkeys.Resp.{integer}
use postkeys.Handler.Sample.{sample_backend, start}
use postkeys.Handler.Pubsub.{handle_publish}
use postkeys.Pubsub.Registry
use postkeys.Pubsub.Registry.{Registry, unsubscribe_names}
use postkeys.Pubsub.Registry.Membership.{
  is_member, is_listed, subscribe_lem, unsubscribe_lem, is_asked,
}
use postkeys.Pubsub.Registry.Membership.{remove_subscriber_lem}
use postkeys.Pubsub.Registry.Invariant.{IsValid, Call, subscribe_call, unsubscribe_call}
use postkeys.Pubsub.Registry.Invariant.{apply_calls, reachable-IsValid}
use postkeys.Pubsub.Glob.{glob_match}
use postkeys.Pubsub.Glob.Reference.{matches}
use postkeys.Pubsub.Glob.Correct.{glob_match-eq-matches, glob_match-star_text}
use postkeys.Pubsub.Glob.Ends.{glob_match_total}
use postkeys.Pubsub.Hub.{Hub, deliver, match_pattern}
use postkeys.Pubsub.Hub.Delivery.{handle_publish-deliver, gets_message, gets_pmessage, deliver_lem}

abbrev news : Bytes
news = codes "news"

abbrev script : List Call
script =
    subscribe_call 1 (news ∷ codes "ads" ∷ [])
    ∷ (subscribe_call 2 (news ∷ []) ∷ (unsubscribe_call 1 (codes "ads" ∷ []) ∷ []))

abbrev sample : Registry
sample = apply_calls script Registry.empty

abbrev sample_hub : Hub
sample_hub = record { channels = sample; patterns = sample }

subscribe_lem_example :
    (is_member (Registry.subscribe 3 (news ∷ []) sample).0 news 1 ≡ is_member sample news 1)
    × (is_listed (Registry.subscribe 3 (news ∷ []) sample).0 news 1 ≡ is_listed sample news 1)
subscribe_lem_example = subscribe_lem 3 (news ∷ []) sample news 1

unsubscribe_lem_example :
    (is_member (Registry.unsubscribe 2 [] sample).0 news 2
      ≡ (not (is_asked news []) && is_member sample news 2))
    × (is_listed (Registry.unsubscribe 2 [] sample).0 news 2
        ≡ (not (is_asked news []) && is_listed sample news 2))
unsubscribe_lem_example = unsubscribe_lem 2 [] sample (reachable-IsValid script).agree news 2

remove_subscriber_lem_example :
    (is_member (Registry.remove_subscriber 2 sample) news 1 ≡ is_member sample news 1)
    × (is_listed (Registry.remove_subscriber 2 sample) news 1 ≡ is_listed sample news 1)
remove_subscriber_lem_example =
    remove_subscriber_lem 2 sample (reachable-IsValid script).agree news 1

reachable-IsValid_example : IsValid (apply_calls script Registry.empty)
reachable-IsValid_example = reachable-IsValid script

glob_match-eq-matches_example :
    glob_match (codes "n?w*s") news ≡ some (matches (codes "n?w*s") news)
glob_match-eq-matches_example = glob_match-eq-matches (codes "n?w*s") news (omega arith)

glob_match-star_text_example : glob_match (codes "*") (codes "*abc") ≡ some false
glob_match-star_text_example = glob_match-star_text b'a' (codes "bc")

glob_match_total_example : (b : Bool) × (glob_match (codes "a*b") (codes "a*cb") ≡ some b)
glob_match_total_example = glob_match_total (codes "a*b") (codes "a*cb")

handle_publish-deliver_example :
    handle_publish sample_backend sample_hub news (codes "hi") start
    ≡ (integer (pos (length (deliver news (codes "hi") sample_hub))), start)
handle_publish-deliver_example =
    handle_publish-deliver sample_backend sample_hub news (codes "hi") start

deliver_lem_example :
    (gets_message 2 news (codes "hi") (deliver news (codes "hi") sample_hub)
      ≡ is_member sample news 2)
    × (gets_pmessage 2 news news (codes "hi") (deliver news (codes "hi") sample_hub)
        ≡ (match_pattern news news && is_member sample news 2))
unfolding same_bytes
deliver_lem_example =
    deliver_lem news (codes "hi") sample_hub (reachable-IsValid script) 2 news news (codes "hi")
