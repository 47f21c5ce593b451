-- ===== src/Streams/Replay.antt =====
-- A worker of data_model/TestManager.py that reports its log from the start.
use mathlib.Core.Option
use test_looper.Common.{
  ℕ, ◌+◌, ◌≤◌, ◌<◌, ◌≡◌, refl, sym, ap, ◌∙◌, Bool, true, false, inl, inr, Option, none, some, List,
  [], ◌∷◌, ◌++◌, arith, ltb, if◌then◌else◌, keep, length, drop, update, Bool-cases, ==_refl,
  length-append,
}
use test_looper.Streams.{Message, join, total_length}
use test_looper.Streams.Delivery.{join-snoc, drop-join}
use test_looper.Streams.Heartbeat.{
  max_log_messages_per_test, Heartbeats, get_all_logs_for, append_log, call_listeners, log_message,
  note_test, report, test_heartbeat, test_heartbeat_reinitialized,
}
use test_looper.Streams.Logs.{Beats, Beats-IsLogged, is_given, given_some}

log_message_appends :
    (accepts : ℕ → Message → Bool) (test : ℕ) (msg : Message) (s : Heartbeats) (log : List Message)
    → s.logs test ≡ some log
    → (s' : Heartbeats) × (log_message accepts test (some msg) s ≡ some s')
      × (s'.logs test ≡ some (append_log msg log))
      × (s'.timestamps ≡ s.timestamps)
unfolding log_message
log_message_appends accepts test msg s log e = (
  logged log,
  ap (λ x. elim x as (λ y. Option Heartbeats) [ none ↦ none | some found ↦ some (logged found) ]) e,
  ap (λ b. if b then some (append_log msg log) else s.logs test) (==_refl test),
  refl,
)
  where
    logged : List Message → Heartbeats
    logged log =
        let ls = Option.get_or (s.listeners test) [] in
        record s {
          logs = update s.logs test (some (append_log msg log));
          listeners = update s.listeners test (some (keep (λ l. accepts l msg) ls));
          heard = call_listeners accepts msg ls s.heard;
        }

report-logs :
    (test timestamp last : ℕ) (s : Heartbeats)
    → s.timestamps test ≡ some last
    → (recorded : Bool) × (s' : Heartbeats) × (report test timestamp s ≡ some (recorded, s'))
      × (s'.logs ≡ s.logs)
unfolding report
report-logs test timestamp last s e = elim (Bool-cases (ltb (last + 5000) timestamp)) [
  | inr soon ↦ (false, s, rw (e, report) (rw soon refl), refl)
  | inl late ↦ (
    true,
    record s { timestamps = update s.timestamps test (some timestamp) },
    rw (e, report) (rw late refl),
    refl,
  )
]

append_log-join :
    (rest : Message) (log : List Message)
    → length log < max_log_messages_per_test
    → join (append_log rest log) ≡ join log ++ rest
append_log-join rest log h = rw (fits (length-append log (rest ∷ []))) (join-snoc log rest)
  where
    not_ltb : (a b : ℕ) → b ≤ a → ltb a b ≡ false
    not_ltb a b h = ground (arith, h)

    fits :
        length (log ++ rest ∷ []) ≡ length log + length (rest ∷ [])
        → ltb max_log_messages_per_test (length (log ++ rest ∷ [])) ≡ false
    fits size =
        not_ltb max_log_messages_per_test (length (log ++ rest ∷ [])) (omega (arith, h, size))

-- In every reachable state, where the log of a test is not full, a heartbeat that starts the log
-- over with a text that continues it makes `getAllLogsFor` return that text.
pub get_all_logs_for-reinitialized :
    (accepts : ℕ → Message → Bool) (s : Heartbeats) (test timestamp : ℕ) (log : List Message)
    (rest : Message)
    → Beats accepts s
    → s.logs test ≡ some log
    → length log < max_log_messages_per_test
    → (recorded : Bool) × (s' : Heartbeats) × (test_heartbeat_reinitialized accepts test timestamp
          (join log ++ rest)
          s
        ≡ some (recorded, s'))
      × (get_all_logs_for test s' ≡ join log ++ rest)
unfolding test_heartbeat_reinitialized test_heartbeat note_test get_all_logs_for
get_all_logs_for-reinitialized accepts s test timestamp log rest b e room =
    let i = Beats-IsLogged accepts s b in
    let (last, at) = given_some (s.timestamps test) (sym (i.paired test) ∙ ap is_given e) in
    let (logged, f, appended, times) = log_message_appends accepts test rest s log e in
    let (recorded, s', g, same) =
      report-logs test timestamp last logged (ap (λ m. m test) times ∙ at) in
    let noted : note_test test timestamp s ≡ s = rw (at, note_test) refl in
    let fresh_part : drop (total_length (Option.get_or (s.logs test) [])) (join log ++ rest)
        ≡ rest =
      ap (λ x. drop (total_length (Option.get_or x [])) (join log ++ rest)) e
      ∙ drop-join log rest in
    let beat : test_heartbeat accepts test timestamp (some rest) s ≡ some (recorded, s') =
      ap (λ x. after x) (ap (log_message accepts test (some rest)) noted ∙ f) ∙ g in
    (
      recorded,
      s',
      ap (λ m. test_heartbeat accepts test timestamp (some m) s) fresh_part ∙ beat,
      ap (λ x. elim x as (λ y. Message) [ none ↦ [] | some found ↦ join found ])
            (ap (λ m. m test) same ∙ appended)
          ∙ append_log-join rest log room,
    )
  where
    after : Option Heartbeats → Option (Bool × Heartbeats)
    after none = none
    after (some logged) = report test timestamp logged
