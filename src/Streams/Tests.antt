-- ===== src/Streams/Tests.antt =====
-- Runs of data_model/TestManager.py's message buffers and heartbeats, and the theorems at them.
use test_looper.Common.{
  ℕ, ◌≤◌, ◌≡◌, refl, Bool, true, Option, none, some, List, [], ◌∷◌, ◌++◌, length, arith,
}
use test_looper.Streams.{
  Message, join, Buffer, new_buffer, add_message, set_total_messages, start_subscribe,
  finish_subscribe,
}
use test_looper.Streams.Delivery.{
  Runs, fresh, adds, starts, finishes, subscribers-Runs, join-set_total_messages,
}
use test_looper.Streams.Heartbeat.{
  Heartbeats, no_heartbeats, max_log_messages_per_test, test_heartbeat, log_message, note_test,
  report, test_heartbeat_reinitialized, get_all_logs_for,
}
use test_looper.Streams.Logs.{Beats, beats, test_heartbeat-Beats}
use test_looper.Streams.Replay.{get_all_logs_for-reinitialized}

-- Every call succeeds.
abbrev accepts : ℕ → Message → Bool
accepts l msg = true

abbrev buffer : Buffer
buffer = finish_subscribe accepts 4 (
    add_message accepts (8 ∷ [])
      (start_subscribe accepts 4 (add_message accepts (5 ∷ 6 ∷ []) new_buffer)))

buffer-Runs : Runs accepts buffer
unfolding add_message start_subscribe
buffer-Runs = finishes 4 (adds (8 ∷ []) (starts 4 (adds (5 ∷ 6 ∷ []) fresh) refl refl refl))

subscribers-Runs_example : buffer.received 4 ≡ buffer.messages
subscribers-Runs_example =
    subscribers-Runs accepts buffer 4 buffer-Runs
      (unfold finish_subscribe add_message start_subscribe in refl)

join-set_total_messages_example :
    join (set_total_messages accepts (join buffer.messages ++ 9 ∷ []) buffer).messages
    ≡ join buffer.messages ++ 9 ∷ []
join-set_total_messages_example = join-set_total_messages accepts buffer (9 ∷ [])

test_heartbeat-Beats_example :
    (recorded : Bool) × (s' : Heartbeats) × (test_heartbeat accepts 3 7000
        (some (1 ∷ []))
        no_heartbeats
      ≡ some (recorded, s'))
    × ((t : ℕ) (log : List Message) → s'.logs t ≡ some log → length log ≤ max_log_messages_per_test)
test_heartbeat-Beats_example =
    test_heartbeat-Beats accepts no_heartbeats 3 7000 (some (1 ∷ [])) Beats.fresh

abbrev beaten : Option (Bool × Heartbeats)
beaten = test_heartbeat accepts 3 7000 (some (1 ∷ 2 ∷ [])) no_heartbeats

abbrev heard : Heartbeats
heard = elim beaten [ none ↦ no_heartbeats | some r ↦ r.1 ]

get_all_logs_for-reinitialized_example :
    (recorded : Bool) × (s' : Heartbeats) × (test_heartbeat_reinitialized accepts 3 9000
        (join ((1 ∷ 2 ∷ []) ∷ []) ++ 5 ∷ [])
        heard
      ≡ some (recorded, s'))
    × (get_all_logs_for 3 s' ≡ join ((1 ∷ 2 ∷ []) ∷ []) ++ 5 ∷ [])
unfolding test_heartbeat log_message note_test report
get_all_logs_for-reinitialized_example =
    get_all_logs_for-reinitialized accepts heard 3 9000 ((1 ∷ 2 ∷ []) ∷ []) (5 ∷ [])
      (beats 3 7000 (some (1 ∷ 2 ∷ [])) Beats.fresh refl) refl (omega arith)
