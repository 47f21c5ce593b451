-- ===== src/Streams.antt =====
-- `MessageBuffer` and `DeploymentStream` of data_model/TestManager.py. A listener is a number, a
-- message a list of characters. Whether a call of a listener raises is an argument. What the
-- listeners were called with so far, `received`, is kept beside the buffer's own state, and
-- `catching_up` is the local `len(toSend)` of a thread between the two locked sections of `subscribe`.
pub mod Delivery
pub mod Heartbeat
pub mod Logs
pub mod Replay
mod Tests
use test_looper.Common.{
  ℕ, ◌+◌, Bool, true, false, not, ◌&&◌, Option, none, some, List, [], ◌∷◌, ◌++◌, ◌==◌,
  if◌then◌else◌, elem, keep, length, drop, Map, update,
}

abbrev pub Message : Type 0
Message = List ℕ

-- `"".join(messages)`
abbrev pub join : List Message → Message
join [] = []
join (m ∷ ms) = m ++ join ms

-- `sum([len(m) for m in messages])`
abbrev pub total_length : List Message → ℕ
total_length [] = 0
total_length (m ∷ ms) = length m + total_length ms

pub record Buffer : Type 0 where
  pub subscribers : List ℕ
  pub messages : List Message
  pub received : ℕ → List Message
  pub catching_up : Map ℕ

abbrev pub new_buffer : Buffer
new_buffer = record { subscribers = []; messages = []; received = λ l. []; catching_up = λ l. none }

abbrev pub called : (ℕ → List Message) → ℕ → List Message → ℕ → List Message
called received l ms j = if l == j then received j ++ ms else received j

-- `addMessage`, where every subscriber is called and those whose call raises are discarded
unfoldable pub add_message : (ℕ → Message → Bool) → Message → Buffer → Buffer
add_message accepts msg b = record b {
  subscribers = keep (λ l. accepts l msg) b.subscribers;
  messages = b.messages ++ msg ∷ [];
  received =
      λ l. if elem l b.subscribers && accepts l msg then b.received l ++ msg ∷ [] else b.received l;
}

-- `setTotalMessages`
unfoldable pub set_total_messages : (ℕ → Message → Bool) → Message → Buffer → Buffer
unfolding add_message
set_total_messages accepts all_data b =
    add_message accepts (drop (total_length b.messages) all_data) b

-- The calls of `onMessage` over a list up to one that raises, and whether none did.
abbrev pub send_all : (Message → Bool) → List Message → List Message × Bool
send_all accepts [] = ([], true)
send_all accepts (m ∷ ms) =
    let rest = send_all accepts ms in if accepts m then (m ∷ rest.0, rest.1) else ([], false)

-- `subscribe` as far as the second `with self._lock`
unfoldable pub start_subscribe : (ℕ → Message → Bool) → ℕ → Buffer → Buffer
start_subscribe accepts l b =
    let sent = send_all (accepts l) b.messages in
    record b {
      received = called b.received l sent.0;
      catching_up = update b.catching_up l (if sent.1 then some (length b.messages) else none);
    }

-- The rest of `subscribe`.
unfoldable pub finish_subscribe : (ℕ → Message → Bool) → ℕ → Buffer → Buffer
finish_subscribe accepts l b = elim (b.catching_up l) [
  | none ↦ b
  | some count ↦
      let sent = send_all (accepts l) (drop count b.messages) in
      record b {
        received = called b.received l sent.0;
        catching_up = update b.catching_up l none;
        subscribers =
            if sent.1 && not (elem l b.subscribers) then l ∷ b.subscribers else b.subscribers;
      }
]

-- `unsubscribe`
unfoldable pub unsubscribe : ℕ → Buffer → Buffer
unsubscribe l b = record b { subscribers = keep (λ j. not (l == j)) b.subscribers }

pub record Stream : Type 0 where
  pub from_client : Buffer
  pub from_deployment : Buffer

unfoldable pub client_count : Stream → ℕ
client_count s = length s.from_deployment.subscribers

unfoldable pub add_message_from_client : (ℕ → Message → Bool) → Message → Stream → Stream
unfolding add_message
add_message_from_client accepts msg s = record s {
  from_client = add_message accepts msg s.from_client;
}

unfoldable pub add_message_from_deployment : (ℕ → Message → Bool) → Message → Stream → Stream
unfolding add_message
add_message_from_deployment accepts msg s = record s {
  from_deployment = add_message accepts msg s.from_deployment;
}

unfoldable pub all_messages_from_deployment_from_start :
    (ℕ → Message → Bool) → Message → Stream → Stream
unfolding set_total_messages
all_messages_from_deployment_from_start accepts all_data s = record s {
  from_deployment = set_total_messages accepts all_data s.from_deployment;
}
