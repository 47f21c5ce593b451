-- ===== src/Streams/Logs.antt =====
-- The logs that `HeartbeatHandler` of data_model/TestManager.py keeps.
use mathlib.Core.Option
use test_looper.Common.{
  ℕ, ◌+◌, ◌≤◌, ◌≡◌, refl, sym, ap, subst, ◌∙◌, Bool, true, false, inl, inr, Option, none, some,
  List, [], ◌∷◌, ◌++◌, arith, ltb, ◌==◌, if◌then◌else◌, keep, length, drop, update, Bool-cases,
  Option-cases, ==_refl, ==_iff, length-append, length-drop,
}
use test_looper.Streams.{Message, join, total_length}
use test_looper.Streams.Heartbeat.{
  max_log_messages_per_test, Heartbeats, no_heartbeats, add_listener, append_log, call_listeners,
  log_message, note_test, report, test_heartbeat, test_heartbeat_reinitialized,
}

pub data Beats (accepts : ℕ → Message → Bool) : Heartbeats → Type 0 where
  fresh : Beats accepts no_heartbeats
  listens :
      {s : Heartbeats} (test l : ℕ)
      → Beats accepts s
      → Beats accepts (add_listener accepts test l s)
  beats :
      {s s' : Heartbeats} {recorded : Bool} (test timestamp : ℕ) (msg : Option Message)
      → Beats accepts s
      → test_heartbeat accepts test timestamp msg s ≡ some (recorded, s')
      → Beats accepts s'
  restarts :
      {s s' : Heartbeats} {recorded : Bool} (test timestamp : ℕ) (from_start : Message)
      → Beats accepts s
      → test_heartbeat_reinitialized accepts test timestamp from_start s ≡ some (recorded, s')
      → Beats accepts s'

append_log_bound :
    (msg : Message) (log : List Message)
    → length log ≤ max_log_messages_per_test
    → length (append_log msg log) ≤ max_log_messages_per_test
append_log_bound msg log h =
    let appended = log ++ msg ∷ [] in
    let size = length-append log (msg ∷ []) in
    elim (Bool-cases (ltb max_log_messages_per_test (length appended))) [
      | inl long ↦ rw long (omega (arith, h, size, length-drop 100 appended))
      | inr short ↦ rw short (ltb_no max_log_messages_per_test (length appended) short)
    ]
  where
    ltb_no : (a b : ℕ) → ltb a b ≡ false → b ≤ a
    ltb_no a b h = ground (arith, h)

abbrev pub is_given : {A : Type 0} → Option A → Bool
is_given none = false
is_given (some a) = true

pub given_some : {A : Type 0} (m : Option A) → is_given m ≡ true → (a : A) × (m ≡ some a)
given_some none h = absurd (ground (arith, h))
given_some (some a) h = (a, refl)

paired-if :
    {A B : Type 0} (a : A) (b : B) (here : Bool) (m : Option A) (n : Option B)
    → is_given m ≡ is_given n
    → is_given (if here then some a else m) ≡ is_given (if here then some b else n)
paired-if a b true m n h = refl
paired-if a b false m n h = h

-- A test has a log exactly if it has a timestamp, and no log is too long.
pub record IsLogged (s : Heartbeats) : Type 0 where
  pub paired : (test : ℕ) → is_given (s.logs test) ≡ is_given (s.timestamps test)
  pub bounded :
      (test : ℕ) (log : List Message)
      → s.logs test ≡ some log
      → length log ≤ max_log_messages_per_test

note_test-IsLogged :
    (test timestamp : ℕ) (s : Heartbeats) → IsLogged s → IsLogged (note_test test timestamp s)
unfolding note_test
note_test-IsLogged test timestamp s i = elim (Option-cases (s.timestamps test)) [
  | inr (last, e) ↦ rw (e, note_test) i
  | inl e ↦
      rw (e, note_test)
        (record {
          paired = λ t. paired-if [] timestamp (t == test) (s.logs t) (s.timestamps t) (i.paired t);
          bounded = λ t log h. elim (Bool-cases (t == test)) [
            | inl same ↦
                let empty : [] ≡ log = ground (arith, h, same) in
                subst (λ x. length x ≤ max_log_messages_per_test) empty (omega arith)
            | inr other ↦ i.bounded t log (ground (arith, h, other))
          ];
        })
]

note_test_given :
    (test timestamp : ℕ) (s : Heartbeats)
    → IsLogged s
    → is_given ((note_test test timestamp s).logs test) ≡ true
unfolding note_test
note_test_given test timestamp s i = elim (Option-cases (s.timestamps test)) [
  | inr (last, e) ↦ rw (e, note_test) (i.paired test ∙ ap is_given e)
  | inl e ↦
      rw (e, note_test) (ap (λ b. is_given (if b then some [] else s.logs test)) (==_refl test))
]

log_message-IsLogged :
    (accepts : ℕ → Message → Bool) (test : ℕ) (msg : Option Message) (s : Heartbeats)
    → IsLogged s
    → is_given (s.logs test) ≡ true
    → (s' : Heartbeats) × (log_message accepts test msg s ≡ some s')
      × IsLogged s'
      × (is_given (s'.timestamps test) ≡ true)
unfolding log_message
log_message-IsLogged accepts test none s i given = (s, refl, i, sym (i.paired test) ∙ given)
log_message-IsLogged accepts test (some msg) s i given =
    let (log, e) = given_some (s.logs test) given in
    (
      logged log,
      ap
          (λ x. elim x as (λ y. Option Heartbeats) [
            | none ↦ none
            | some found ↦ some (logged found)
          ])
          e,
      record {
        paired = λ t. elim (Bool-cases (t == test)) [
          | inl same ↦
              let here : test ≡ t = sym ((==_iff t test).0 same) in
              ap is_given (update-at log t same)
              ∙ sym given
              ∙ ap (λ x. is_given (s.logs x)) here
              ∙ i.paired t
          | inr other ↦ ap is_given (update-other log t other) ∙ i.paired t
        ];
        bounded = λ t found h. elim (Bool-cases (t == test)) [
          | inl same ↦
              let appended : append_log msg log ≡ found = ground (arith, h, update-at log t same) in
              subst (λ x. length x ≤ max_log_messages_per_test) appended
                (append_log_bound msg log (i.bounded test log e))
          | inr other ↦ i.bounded t found (sym (update-other log t other) ∙ h)
        ];
      },
      sym (i.paired test) ∙ given,
    )
  where
    logged : List Message → Heartbeats
    logged log =
        let ls = Option.get_or (s.listeners test) [] in
        record s {
          logs = update s.logs test (some (append_log msg log));
          listeners = update s.listeners test (some (keep (λ l. accepts l msg) ls));
          heard = call_listeners accepts msg ls s.heard;
        }

    update-at :
        (log : List Message) (t : ℕ)
        → t == test ≡ true
        → update s.logs test (some (append_log msg log)) t ≡ some (append_log msg log)
    update-at log t same = ap (λ b. if b then some (append_log msg log) else s.logs t) same

    update-other :
        (log : List Message) (t : ℕ)
        → t == test ≡ false
        → update s.logs test (some (append_log msg log)) t ≡ s.logs t
    update-other log t other = ap (λ b. if b then some (append_log msg log) else s.logs t) other

report-IsLogged :
    (test timestamp : ℕ) (s : Heartbeats)
    → IsLogged s
    → is_given (s.timestamps test) ≡ true
    → (recorded : Bool) × (s' : Heartbeats) × (report test timestamp s ≡ some (recorded, s'))
      × IsLogged s'
unfolding report
report-IsLogged test timestamp s i given =
    let (last, e) = given_some (s.timestamps test) given in
    elim (Bool-cases (ltb (last + 5000) timestamp)) [
      | inr soon ↦ (false, s, rw (e, report) (rw soon refl), i)
      | inl late ↦ (
        true,
        record s { timestamps = update s.timestamps test (some timestamp) },
        rw (e, report) (rw late refl),
        record {
          paired = λ t. elim (Bool-cases (t == test)) [
            | inl same ↦
                let here : test ≡ t = sym ((==_iff t test).0 same) in
                ap (λ x. is_given (s.logs x)) (sym here)
                ∙ i.paired test
                ∙ given
                ∙ sym (ap (λ b. is_given (if b then some timestamp else s.timestamps t)) same)
            | inr other ↦
                i.paired t
                ∙ sym (ap (λ b. is_given (if b then some timestamp else s.timestamps t)) other)
          ];
          bounded = i.bounded;
        },
      )
    ]

test_heartbeat-IsLogged :
    (accepts : ℕ → Message → Bool) (test timestamp : ℕ) (msg : Option Message) (s : Heartbeats)
    → IsLogged s
    → (recorded : Bool) × (s' : Heartbeats) × (test_heartbeat accepts test timestamp msg s
        ≡ some (recorded, s'))
      × IsLogged s'
unfolding test_heartbeat
test_heartbeat-IsLogged accepts test timestamp msg s i =
    let noted = note_test-IsLogged test timestamp s i in
    let (logged, e, kept, given) =
      log_message-IsLogged accepts test msg (note_test test timestamp s) noted
        (note_test_given test timestamp s i) in
    let (recorded, s', f, kept') = report-IsLogged test timestamp logged kept given in
    let step =
      ap
        (λ x. elim x as (λ y. Option (Bool × Heartbeats)) [
          | none ↦ none
          | some found ↦ report test timestamp found
        ])
        e in
    (recorded, s', step ∙ f, kept')

add_listener-IsLogged :
    (accepts : ℕ → Message → Bool) (test l : ℕ) (s : Heartbeats)
    → IsLogged s
    → IsLogged (add_listener accepts test l s)
unfolding add_listener
add_listener-IsLogged accepts test l s i = elim (Option-cases (s.logs test)) [
  | inl e ↦ rw (e, add_listener) (record { paired = i.paired; bounded = i.bounded })
  | inr (log, e) ↦ elim (Bool-cases (accepts l (join log))) [
    | inl ok ↦ rw (e, add_listener) (rw ok (record { paired = i.paired; bounded = i.bounded }))
    | inr raises ↦
        rw (e, add_listener) (rw raises (record { paired = i.paired; bounded = i.bounded }))
  ]
]

pub Beats-IsLogged : (accepts : ℕ → Message → Bool) (s : Heartbeats) → Beats accepts s → IsLogged s
unfolding test_heartbeat_reinitialized
Beats-IsLogged accepts _ fresh = record {
  paired = λ test. refl;
  bounded = λ test log h. absurd (ground (arith, h));
}
Beats-IsLogged accepts _ (listens {s} test l b) =
    add_listener-IsLogged accepts test l s (Beats-IsLogged accepts s b)
Beats-IsLogged accepts s' (beats {s} test timestamp msg b h) =
    let (recorded, found, e, i) =
      test_heartbeat-IsLogged accepts test timestamp msg s (Beats-IsLogged accepts s b) in
    let same : found ≡ s' = ground (arith, e, h) in subst IsLogged same i
Beats-IsLogged accepts s' (restarts {s} test timestamp from_start b h) =
    let msg = drop (total_length (Option.get_or (s.logs test) [])) from_start in
    let (recorded, found, e, i) =
      test_heartbeat-IsLogged accepts test timestamp (some msg) s (Beats-IsLogged accepts s b) in
    let same : found ≡ s' = ground (arith, e, h) in subst IsLogged same i

-- In every state that listeners and heartbeats reach, a further heartbeat does not raise, and the
-- log of every test has at most `MAX_LOG_MESSAGES_PER_TEST` messages after it.
pub test_heartbeat-Beats :
    (accepts : ℕ → Message → Bool) (s : Heartbeats) (test timestamp : ℕ) (msg : Option Message)
    → Beats accepts s
    → (recorded : Bool) × (s' : Heartbeats) × (test_heartbeat accepts test timestamp msg s
        ≡ some (recorded, s'))
      × ((t : ℕ) (log : List Message)
          → s'.logs t ≡ some log
          → length log ≤ max_log_messages_per_test)
test_heartbeat-Beats accepts s test timestamp msg b =
    let (recorded, s', e, i) =
      test_heartbeat-IsLogged accepts test timestamp msg s (Beats-IsLogged accepts s b) in
    (recorded, s', e, i.bounded)
