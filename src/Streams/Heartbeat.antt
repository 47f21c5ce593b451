-- ===== src/Streams/Heartbeat.antt =====
-- `HeartbeatHandler` of data_model/TestManager.py. Test and listener ids are numbers, a time is in
-- milliseconds, and a KeyError is `none`. Whether a call of a listener raises is an argument, and
-- `heard` keeps what the listeners of all tests were called with.
use mathlib.Core.Option
use test_looper.Common.{
  ℕ, ◌+◌, ◌-◌, Bool, true, false, Option, none, some, List, [], ◌∷◌, ◌++◌, ltb, if◌then◌else◌, keep,
  length, drop, Map, update,
}
use test_looper.Streams.{Message, join, total_length, called}

abbrev pub max_log_messages_per_test : ℕ
max_log_messages_per_test = 100000

pub record Heartbeats : Type 0 where
  pub logs : Map (List Message)
  pub timestamps : Map ℕ
  pub listeners : Map (List ℕ)
  pub heard : ℕ → List Message

abbrev pub no_heartbeats : Heartbeats
no_heartbeats = record {
  logs = λ t. none;
  timestamps = λ t. none;
  listeners = λ t. none;
  heard = λ l. [];
}

-- `getAllLogsFor`
unfoldable pub get_all_logs_for : ℕ → Heartbeats → Message
get_all_logs_for test s = elim (s.logs test) [ none ↦ [] | some log ↦ join log ]

-- `getMostRecentTestHeartbeats`
unfoldable pub get_most_recent_test_heartbeats : ℕ → Heartbeats → Message
get_most_recent_test_heartbeats test s = elim (s.logs test) [
  | none ↦ []
  | some log ↦
      let res = join log in if ltb (length res) 10240 then res else drop (length res - 10240) res
]

-- `addListener`
unfoldable pub add_listener : (ℕ → Message → Bool) → ℕ → ℕ → Heartbeats → Heartbeats
add_listener accepts test l s =
    let existing = Option.get_or (s.listeners test) [] in
    let made = record s { listeners = update s.listeners test (some existing) } in
    elim (s.logs test) [
      | none ↦ made
      | some log ↦
          if accepts l (join log)
          then record s {
            listeners = update s.listeners test (some (existing ++ l ∷ []));
            heard = called s.heard l (join log ∷ []);
          }
          else made
    ]

-- `self.logs[testId].append(logMessage)` and the cut of a log that is too long
abbrev pub append_log : Message → List Message → List Message
append_log msg log =
    let appended = log ++ msg ∷ [] in
    if ltb max_log_messages_per_test (length appended) then drop 100 appended else appended

-- The calls of the loop over the listeners, one for each entry of the list.
abbrev pub call_listeners :
    (ℕ → Message → Bool) → Message → List ℕ → (ℕ → List Message) → ℕ → List Message
call_listeners accepts msg [] heard = heard
call_listeners accepts msg (l ∷ ls) heard =
    call_listeners accepts msg ls (if accepts l msg then called heard l (msg ∷ []) else heard)

-- The part of `testHeartbeat` under `if logMessage is not None`.
unfoldable pub log_message :
    (ℕ → Message → Bool) → ℕ → Option Message → Heartbeats → Option Heartbeats
log_message accepts test none s = some s
log_message accepts test (some msg) s = elim (s.logs test) [
  | none ↦ none
  | some log ↦
      let ls = Option.get_or (s.listeners test) [] in
      some (record s {
        logs = update s.logs test (some (append_log msg log));
        listeners = update s.listeners test (some (keep (λ l. accepts l msg) ls));
        heard = call_listeners accepts msg ls s.heard;
      })
]

-- The start of `testHeartbeat`: a test that is heard of for the first time.
unfoldable pub note_test : ℕ → ℕ → Heartbeats → Heartbeats
note_test test timestamp s = elim (s.timestamps test) [
  | some last ↦ s
  | none ↦ record s {
    timestamps = update s.timestamps test (some timestamp);
    logs = update s.logs test (some []);
  }
]

-- The end: whether to record the heartbeat in the database, every five seconds.
unfoldable pub report : ℕ → ℕ → Heartbeats → Option (Bool × Heartbeats)
report test timestamp s = elim (s.timestamps test) [
  | none ↦ none
  | some last ↦
      if ltb (last + 5000) timestamp
      then some (true, record s { timestamps = update s.timestamps test (some timestamp) })
      else some (false, s)
]

-- `testHeartbeat`
unfoldable pub test_heartbeat :
    (ℕ → Message → Bool) → ℕ → ℕ → Option Message → Heartbeats → Option (Bool × Heartbeats)
unfolding note_test log_message report
test_heartbeat accepts test timestamp msg s =
    elim (log_message accepts test msg (note_test test timestamp s)) [
      | none ↦ none
      | some logged ↦ report test timestamp logged
    ]

-- `testHeartbeatReinitialized`
unfoldable pub test_heartbeat_reinitialized :
    (ℕ → Message → Bool) → ℕ → ℕ → Message → Heartbeats → Option (Bool × Heartbeats)
unfolding test_heartbeat
test_heartbeat_reinitialized accepts test timestamp from_start s =
    let message_len = total_length (Option.get_or (s.logs test) []) in
    test_heartbeat accepts test timestamp (some (drop message_len from_start)) s
