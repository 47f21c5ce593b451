-- ===== src/Streams/Delivery.antt =====
-- What `MessageBuffer` of data_model/TestManager.py delivers.
use test_looper.Common.{
  ℕ, zero, suc, ◌+◌, ◌≤◌, ◌≡◌, refl, sym, ap, subst, ◌∙◌, Bool, true, false, not, ◌&&◌, ◌||◌, inl,
  inr, none, some, List, [], ◌∷◌, ◌++◌, arith, ◌==◌, if◌then◌else◌, elem, keep, length, take, drop,
  update, Bool-cases, Option-cases, ==_iff, length-append,
}
use mathlib.Core.List.{append-nil, append_assoc}
use test_looper.Streams.{
  Message, join, total_length, Buffer, new_buffer, called, add_message, set_total_messages,
  send_all, start_subscribe, finish_subscribe, unsubscribe,
}

-- The states of a buffer under any interleaving of the threads' locked sections. A listener is
-- subscribed at most once.
pub data Runs (accepts : ℕ → Message → Bool) : Buffer → Type 0 where
  fresh : Runs accepts new_buffer
  adds : {b : Buffer} (msg : Message) → Runs accepts b → Runs accepts (add_message accepts msg b)
  sets :
      {b : Buffer} (all_data : Message)
      → Runs accepts b
      → Runs accepts (set_total_messages accepts all_data b)
  starts :
      {b : Buffer} (l : ℕ)
      → Runs accepts b
      → b.received l ≡ []
      → b.catching_up l ≡ none
      → elem l b.subscribers ≡ false
      → Runs accepts (start_subscribe accepts l b)
  finishes : {b : Buffer} (l : ℕ) → Runs accepts b → Runs accepts (finish_subscribe accepts l b)
  unsubscribes : {b : Buffer} (l : ℕ) → Runs accepts b → Runs accepts (unsubscribe l b)

elem-keep : (p : ℕ → Bool) (l : ℕ) (ls : List ℕ) → elem l (keep p ls) ≡ (elem l ls && p l)
elem-keep p l [] = refl
elem-keep p l (j ∷ ls) = elim (Bool-cases (j == l)) [
  | inl same ↦ ground (arith, elem-keep p l ls, same, ap p ((==_iff j l).0 same))
  | inr other ↦ ground (arith, elem-keep p l ls, other)
]

send_all-all :
    (p : Message → Bool) (ms : List Message) → (send_all p ms).1 ≡ true → (send_all p ms).0 ≡ ms
send_all-all p [] h = refl
send_all-all p (m ∷ ms) h = elim (Bool-cases (p m)) [
  | inl ok ↦ rw ok (ap (λ rest. m ∷ rest) (send_all-all p ms (ground (arith, ok, h))))
  | inr raises ↦ absurd (ground (arith, raises, h))
]

take-append : (n : ℕ) (xs ys : List Message) → n ≤ length xs → take n (xs ++ ys) ≡ take n xs
take-append zero xs ys h = refl
take-append (suc n) [] ys h = absurd (omega (arith, h))
take-append (suc n) (x ∷ xs) ys h = ap (λ rest. x ∷ rest) (take-append n xs ys (omega (arith, h)))

take-drop : (n : ℕ) (xs : List Message) → take n xs ++ drop n xs ≡ xs
take-drop zero xs = refl
take-drop (suc n) [] = refl
take-drop (suc n) (x ∷ xs) = ap (λ rest. x ∷ rest) (take-drop n xs)

take-length : (xs : List Message) → take (length xs) xs ≡ xs
take-length [] = refl
take-length (x ∷ xs) = ap (λ rest. x ∷ rest) (take-length xs)

-- A subscriber has received all messages, and one that catches up those that it began with.
record Served (b : Buffer) : Type 0 where
  all : (l : ℕ) → elem l b.subscribers ≡ true → b.received l ≡ b.messages
  begun :
      (l n : ℕ)
      → b.catching_up l ≡ some n
      → (n ≤ length b.messages)
        × (b.received l ≡ take n b.messages)
        × (elem l b.subscribers ≡ false)

add_message-Served :
    (accepts : ℕ → Message → Bool) (msg : Message) (b : Buffer)
    → Served b
    → Served (add_message accepts msg b)
unfolding add_message
add_message-Served accepts msg b s = record {
  all = λ l h.
      let kept = elem-keep (λ j. accepts j msg) l b.subscribers in
      let was : elem l b.subscribers ≡ true = ground (arith, kept, h) in
      let ok : accepts l msg ≡ true = ground (arith, kept, h) in
      rw (was, ok) (ap (λ ms. ms ++ msg ∷ []) (s.all l was));
  begun = λ l n h.
      let (bound, got, out) = s.begun l n h in
      (
        omega (arith, bound, length-append b.messages (msg ∷ [])),
        rw out (got ∙ sym (take-append n b.messages (msg ∷ []) bound)),
        ground (arith, elem-keep (λ j. accepts j msg) l b.subscribers, out),
      );
}

start_subscribe-Served :
    (accepts : ℕ → Message → Bool) (l : ℕ) (b : Buffer)
    → Served b
    → b.received l ≡ []
    → b.catching_up l ≡ none
    → elem l b.subscribers ≡ false
    → Served (start_subscribe accepts l b)
unfolding start_subscribe
start_subscribe-Served accepts l b s unheard idle out = record {
  all = λ j h. elim (Bool-cases (l == j)) [
    | inl same ↦
        absurd (ground (arith, h, out, ap (λ x. elem x b.subscribers) ((==_iff l j).0 same)))
    | inr other ↦ rw other (s.all j h)
  ];
  begun = λ j n h. elim (Bool-cases (l == j)) [
    | inl same ↦ elim (Bool-cases (send_all (accepts l) b.messages).1) [
      | inr raised ↦ absurd (ground (arith, same, raised, h))
      | inl heard ↦
          let here : l ≡ j = (==_iff l j).0 same in
          let count : length b.messages ≡ n = ground (arith, same, heard, h) in
          (
            omega (arith, count),
            rw same (
                ap (λ r. r ++ (send_all (accepts l) b.messages).0)
                  (ap b.received (sym here) ∙ unheard)
                ∙ send_all-all (accepts l) b.messages heard
                ∙ sym (take-length b.messages)
                ∙ ap (λ k. take k b.messages) count),
            subst (λ x. elem x b.subscribers ≡ false) here out,
          )
    ]
    | inr other ↦
        let (bound, got, away) = s.begun j n (ground (arith, h, other)) in
        (bound, rw other got, away)
  ];
}

finish_subscribe-Served :
    (accepts : ℕ → Message → Bool) (l : ℕ) (b : Buffer)
    → Served b
    → Served (finish_subscribe accepts l b)
unfolding finish_subscribe
finish_subscribe-Served accepts l b s = elim (Option-cases (b.catching_up l)) [
  | inl e ↦ rw (e, finish_subscribe) s
  | inr (count, e) ↦ rw (e, finish_subscribe) (caught_up count e)
]
  where
    sent : ℕ → List Message × Bool
    sent count = send_all (accepts l) (drop count b.messages)

    joined : ℕ → List ℕ
    joined count =
        if (sent count).1 && not (elem l b.subscribers) then l ∷ b.subscribers else b.subscribers

    elem-joined :
        (count j : ℕ)
        → elem l b.subscribers ≡ false
        → elem j (joined count) ≡ (elem j b.subscribers || (l == j && (sent count).1))
    elem-joined count j out = elim (Bool-cases (sent count).1) [
      | inl heard ↦ ground (arith, heard, out)
      | inr raised ↦ ground (arith, raised, out)
    ]

    caught_up :
        (count : ℕ)
        → b.catching_up l ≡ some count
        → Served (record b {
          received = called b.received l (sent count).0;
          catching_up = update b.catching_up l none;
          subscribers = joined count;
        })
    caught_up count e =
        let (bound, got, out) = s.begun l count e in
        record {
          all = λ j h. elim (Bool-cases (l == j)) [
            | inl same ↦
                let here : l ≡ j = (==_iff l j).0 same in
                let heard : (sent count).1 ≡ true =
                  ground
                    (arith, h, elem-joined count j out, out, ap (λ x. elem x b.subscribers) here) in
                rw same (
                  ap (λ r. r ++ (sent count).0) (ap b.received (sym here) ∙ got)
                  ∙ ap (λ ms. take count b.messages ++ ms)
                      (send_all-all (accepts l) (drop count b.messages) heard)
                  ∙ take-drop count b.messages)
            | inr other ↦ rw other (s.all j (ground (arith, h, elem-joined count j out, other)))
          ];
          begun = λ j n h.
              let other : l == j ≡ false = elim (Bool-cases (l == j)) [
                | inl same ↦ absurd (ground (arith, h, same))
                | inr other ↦ other
              ] in
              let (bound, got, away) = s.begun j n (ground (arith, h, other)) in
              (bound, rw other got, ground (arith, elem-joined count j out, away, other));
        }

unsubscribe-Served : (l : ℕ) (b : Buffer) → Served b → Served (unsubscribe l b)
unfolding unsubscribe
unsubscribe-Served l b s = record {
  all = λ j h. s.all j (ground (arith, h, elem-keep (λ k. not (l == k)) j b.subscribers));
  begun = λ j n h.
      let (bound, got, out) = s.begun j n h in
      (bound, got, ground (arith, out, elem-keep (λ k. not (l == k)) j b.subscribers));
}

-- In every state that the locked sections of any number of threads reach, each listener that is
-- subscribed has been called with all the messages of the buffer, each once and in order, where
-- no listener is subscribed twice.
pub subscribers-Runs :
    (accepts : ℕ → Message → Bool) (b : Buffer) (l : ℕ)
    → Runs accepts b
    → elem l b.subscribers ≡ true
    → b.received l ≡ b.messages
unfolding set_total_messages
subscribers-Runs accepts b l r here = (Runs-Served b r).all l here
  where
    Runs-Served : (b : Buffer) → Runs accepts b → Served b
    Runs-Served _ fresh = record { all = λ l h. refl; begun = λ l n h. absurd (ground (arith, h)) }
    Runs-Served _ (adds {b} msg r) = add_message-Served accepts msg b (Runs-Served b r)
    Runs-Served _ (sets {b} all_data r) =
        add_message-Served accepts (drop (total_length b.messages) all_data) b (Runs-Served b r)
    Runs-Served _ (starts {b} l r unheard idle out) =
        start_subscribe-Served accepts l b (Runs-Served b r) unheard idle out
    Runs-Served _ (finishes {b} l r) = finish_subscribe-Served accepts l b (Runs-Served b r)
    Runs-Served _ (unsubscribes {b} l r) = unsubscribe-Served l b (Runs-Served b r)

pub join-snoc : (ms : List Message) (m : Message) → join (ms ++ m ∷ []) ≡ join ms ++ m
join-snoc [] m = append-nil m
join-snoc (n ∷ ms) m = ap (λ rest. n ++ rest) (join-snoc ms m) ∙ sym (append_assoc n (join ms) m)

drop-append : (m : Message) (n : ℕ) (rest : Message) → drop (length m + n) (m ++ rest) ≡ drop n rest
drop-append [] n rest = ap (λ k. drop k rest) (omega arith)
drop-append (c ∷ m) n rest =
    let shift : length (c ∷ m) + n ≡ suc (length m + n) = omega arith in
    ap (λ k. drop k (c ∷ m ++ rest)) shift ∙ drop-append m n rest

pub drop-join :
    (ms : List Message) (rest : Message) → drop (total_length ms) (join ms ++ rest) ≡ rest
drop-join [] rest = refl
drop-join (m ∷ ms) rest =
    ap (drop (length m + total_length ms)) (append_assoc m (join ms) rest)
    ∙ drop-append m (total_length ms) (join ms ++ rest)
    ∙ drop-join ms rest

-- Where `setTotalMessages` is given a text that starts with the messages so far, the messages
-- after it make up that text.
pub join-set_total_messages :
    (accepts : ℕ → Message → Bool) (b : Buffer) (rest : Message)
    → join (set_total_messages accepts (join b.messages ++ rest) b).messages
      ≡ join b.messages ++ rest
unfolding set_total_messages
join-set_total_messages accepts b rest =
    join-snoc b.messages (drop (total_length b.messages) (join b.messages ++ rest))
    ∙ ap (λ m. join b.messages ++ m) (drop-join b.messages rest)
