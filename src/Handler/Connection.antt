-- ===== src/Handler/Connection.antt =====
-- The commands of internal/handler/handler.go that need neither the storage nor the client's state.
use postkeys.Base.{Option, none, some, List, [], ◌∷◌, ◌++◌}
use postkeys.Base.{◌==◌, compare_numbers, if◌then◌else◌}
use postkeys.Base.Int.{ℤ, pos, negsuc}
use postkeys.Base.Bytes.{Bytes, codes, parse_int, to_upper, compare_bytes}
use postkeys.Resp.{Value, simple_string, integer, bulk_string, array, nil}
use postkeys.Resp.{ok_reply, err_reply, err_wrong_args}
use postkeys.Handler.Arguments.{bulk}

unfoldable pub ping : List Value → Value
ping [] = simple_string (codes "PONG")
ping (a ∷ rest) = bulk_string (bulk a)

unfoldable pub echo : List Value → Value
echo (a ∷ []) = bulk_string (bulk a)
echo _ = err_wrong_args (codes "echo")

unfoldable pub command : List Value → Value
command args = array nil

-- The one database is number 0.
answer_select : Option ℤ → Value
answer_select none = err_reply (codes "ERR value is not an integer or out of range")
answer_select (some (pos n)) =
    if n == 0 then ok_reply else err_reply (codes "ERR DB index is out of range")
answer_select (some (negsuc n)) = err_reply (codes "ERR DB index is out of range")

unfoldable pub select_db : List Value → Value
unfolding answer_select
select_db (a ∷ []) = answer_select (parse_int (bulk a))
select_db _ = err_wrong_args (codes "select")

unfoldable pub wait : List Value → Value
wait (a ∷ (b ∷ rest)) = integer (pos 0)
wait _ = err_wrong_args (codes "wait")

answer_config : Bytes → List Value → Value
answer_config sub rest =
    if sub == codes "GET"
    then elim rest [ [] ↦ err_wrong_args (codes "config get") | a ∷ _ ↦ array nil ]
    else if sub == codes "SET"
    then ok_reply
    else if sub == codes "RESETSTAT"
    then ok_reply
    else if sub == codes "REWRITE"
    then ok_reply
    else err_reply (
        codes "ERR Unknown subcommand or wrong number of arguments for 'CONFIG "
        ++ (sub ++ codes "'"))

unfoldable pub config : List Value → Value
unfolding answer_config
config [] = err_wrong_args (codes "config")
config (a ∷ rest) = answer_config (to_upper (bulk a)) rest

-- The lines of CLUSTER INFO, with a line break between each two.
join_lines : List Bytes → Bytes
join_lines [] = []
join_lines (a ∷ []) = a
join_lines (a ∷ (b ∷ rest)) = a ++ (13 ∷ (10 ∷ join_lines (b ∷ rest)))

cluster_info : Bytes
unfolding join_lines
cluster_info = join_lines (
    codes "cluster_enabled:0"
    ∷ (codes "cluster_state:ok"
        ∷ (codes "cluster_slots_assigned:0"
            ∷ (codes "cluster_slots_ok:0"
                ∷ (codes "cluster_slots_pfail:0"
                    ∷ (codes "cluster_slots_fail:0"
                        ∷ (codes "cluster_known_nodes:1"
                            ∷ (codes "cluster_size:0"
                                ∷ (codes "cluster_current_epoch:0"
                                    ∷ (codes "cluster_my_epoch:0"
                                        ∷ (codes "cluster_stats_messages_sent:0"
                                            ∷ (codes "cluster_stats_messages_received:0"
                                                ∷ (codes "cluster_stats_messages_ping_sent:0"
                                                    ∷ (codes "cluster_stats_messages_pong_sent:0"
                                                        ∷ (codes
                                                            "cluster_stats_messages_meet_sent:0"
                                                            ∷ (codes
                                                            "cluster_stats_messages_ping_received:0"
                                                            ∷ (codes
                                                            "cluster_stats_messages_pong_received:0"
                                                            ∷ (codes
                                                            "cluster_stats_messages_meet_received:0"
                                                            ∷ []))))))))))))))))))

answer_cluster : Bytes → Value
answer_cluster sub =
    if sub == codes "INFO"
    then bulk_string cluster_info
    else if sub == codes "SLOTS"
    then array nil
    else if sub == codes "NODES"
    then bulk_string []
    else if sub == codes "MYID"
    then bulk_string (codes "0000000000000000000000000000000000000000")
    else if sub == codes "KEYSLOT"
    then integer (pos 0)
    else err_reply
        (codes "ERR Unknown subcommand or wrong number of arguments for '" ++ (sub ++ codes "'"))

unfoldable pub cluster : List Value → Value
unfolding answer_cluster cluster_info
cluster [] = err_wrong_args (codes "cluster")
cluster (a ∷ rest) = answer_cluster (to_upper (bulk a))
