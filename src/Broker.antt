-- ===== src/Broker.antt =====
-- The message broker: src/infrastructure/queue/redis_streams_broker/local_broker.py, class
-- LocalDurableBroker, and models.py. A payload is a dict, of values of a type `V` that has the
-- texts, or anything else, a type `B`. Identifiers are the pair of the clock's reading and the
-- counter, which `publish` joins into a text.
-- Each stream is served by one consumer loop; a round of the loop is one step, in which the callback
-- answers or raises. Consumers of different streams interleave between rounds.
pub mod Delivery
mod Tests
use text.Mathlib.Text.{◌==◌ as str_eq}
use project_kernel_runtime.Base.{
  ℕ, zero, suc, ◌+◌, ◌≤◌, Bool, true, false, ◌&&◌, Option, none, some, String, List, [], ◌∷◌, ◌++◌,
  map, any, keep, not, leb, ◌==◌, if◌then◌else◌,
}
use mathlib.Core.Option.{get_or}
use project_kernel_runtime.Base.Dict.{Dict, lookup, insert}

pub data MessageStatus : Type 0 where
  pending processing completed failed dead_letter : MessageStatus

pub record MessageId : Type 0 where
  pub time : ℕ
  pub counter : ℕ

pub data Payload (V B : Type 0) : Type 0 where
  fields : Dict V → Payload V B
  raw : B → Payload V B

pub record StreamMessage (D : Type 0) : Type 0 where
  pub id : MessageId
  pub stream : String
  pub payload : D
  pub consumer_group : Option String
  pub status : MessageStatus
  pub attempt_count : ℕ
  pub error : Option String
  pub trace_id : String

abbrev pub same_id : MessageId → MessageId → Bool
same_id a b = a.time == b.time && a.counter == b.counter

-- `pending` is the dict from identifiers to messages, as its list of messages.
pub record LocalDurableBroker (D : Type 0) : Type 0 where
  pub streams : Dict (List (StreamMessage D))
  pub channels : Dict (List (List (StreamMessage D)))
  pub pending : List (StreamMessage D)
  pub completed : List MessageId
  pub dlq : List (StreamMessage D)
  pub counter : ℕ

-- The callback may publish: it is given the broker and leaves another. `none` is a return, `some`
-- the text of an exception.
abbrev pub Callback : Type 0 → Type 0
Callback D = StreamMessage D → LocalDurableBroker D → Option String × LocalDurableBroker D

module _ {D : Type 0} where
  unfoldable pub init : LocalDurableBroker D
  init = record { streams = []; channels = []; pending = []; completed = []; dlq = []; counter = 0 }

  abbrev pub put_if :
      Option (List (StreamMessage D))
      → String
      → StreamMessage D
      → Dict (List (StreamMessage D))
      → Dict (List (StreamMessage D))
  put_if none stream m streams = streams
  put_if (some queue) stream m streams = insert stream (queue ++ m ∷ []) streams

  abbrev pub broadcast :
      Option (List (List (StreamMessage D)))
      → String
      → StreamMessage D
      → Dict (List (List (StreamMessage D)))
      → Dict (List (List (StreamMessage D)))
  broadcast none stream m channels = channels
  broadcast (some subscribers) stream m channels =
      insert stream (map (λ queue. queue ++ m ∷ []) subscribers) channels

  -- `subscribe`, up to its loop.
  unfoldable pub subscribe : String → LocalDurableBroker D → LocalDurableBroker D
  subscribe stream b = elim (lookup stream b.streams) [
    | none ↦ record b { streams = insert stream [] b.streams }
    | some queue ↦ b
  ]

  abbrev pub get_or_empty : Option (List (StreamMessage D)) → List (StreamMessage D)
  get_or_empty none = []
  get_or_empty (some queue) = queue

  unfoldable pub queue_of : String → LocalDurableBroker D → List (StreamMessage D)
  queue_of stream b = get_or_empty (lookup stream b.streams)

  unfoldable pub is_completed : MessageId → LocalDurableBroker D → Bool
  is_completed i b = any (same_id i) b.completed

  -- `self._pending[message.id] = message` and `del self._pending[message.id]`
  unfoldable pub set_pending : StreamMessage D → List (StreamMessage D) → List (StreamMessage D)
  set_pending m [] = m ∷ []
  set_pending m (n ∷ ms) = if same_id m.id n.id then m ∷ ms else n ∷ set_pending m ms

  unfoldable pub del_pending : MessageId → List (StreamMessage D) → List (StreamMessage D)
  del_pending i ms = keep (λ m. not (same_id i m.id)) ms

  -- `except Exception as e`; the message is the object that `_pending` holds.
  unfoldable pub on_failure :
      String → StreamMessage D → String → LocalDurableBroker D → LocalDurableBroker D
  on_failure stream m e b =
      let m' = record m { attempt_count = m.attempt_count + 1 } in
      if leb 3 m'.attempt_count
      then (let dead = record m' { status = dead_letter; error = some e } in
          record b { dlq = b.dlq ++ dead ∷ []; pending = set_pending dead b.pending })
      else record b {
        streams = insert stream (queue_of stream b ++ m' ∷ []) b.streams;
        pending = set_pending m' b.pending;
      }

  unfoldable pub on_success : StreamMessage D → LocalDurableBroker D → LocalDurableBroker D
  on_success m b = record b { completed = m.id ∷ b.completed; pending = del_pending m.id b.pending }

  abbrev pub finish :
      String → StreamMessage D → Option String × LocalDurableBroker D → LocalDurableBroker D
  finish stream m (none, b) = on_success m b
  finish stream m (some e, b) = on_failure stream m e b

  -- A round of the loop of `subscribe` on a message taken off the queue, whose rest is `queue`.
  unfoldable pub handle :
      String
      → String
      → Callback D
      → StreamMessage D
      → List (StreamMessage D)
      → LocalDurableBroker D
      → LocalDurableBroker D
  unfolding on_failure on_success
  handle stream group callback m queue b =
      let taken = record b { streams = insert stream queue b.streams } in
      let m' = record m { consumer_group = some group; status = processing } in
      if is_completed m.id b
      then taken
      else finish stream m' (callback m' (record taken { pending = set_pending m' b.pending }))

  -- On an empty queue the consumer waits.
  unfoldable pub round : String → String → Callback D → LocalDurableBroker D → LocalDurableBroker D
  unfolding handle
  round stream group callback b = elim (queue_of stream b) [
    | [] ↦ b
    | m ∷ queue ↦ handle stream group callback m queue b
  ]

  unfoldable pub rounds :
      ℕ → String → String → Callback D → LocalDurableBroker D → LocalDurableBroker D
  rounds zero stream group callback b = b
  rounds (suc n) stream group callback b =
      rounds n stream group callback (round stream group callback b)

module _ {V B : Type 0} (text : String → V) where
  -- `if isinstance(data, dict) and value and key not in data: data[key] = value`
  abbrev pub stamp : String → Option String → Payload V B → Payload V B
  stamp key none payload = payload
  stamp key (some value) (raw bytes) = raw bytes
  stamp key (some value) (fields entries) = elim (lookup key entries) [
    | none ↦ fields (insert key (text value) entries)
    | some v ↦ fields entries
  ]

  -- `trace_id` is the one that is passed, if it is not empty, `fresh` the one made otherwise, and
  -- `tenant_id` the keyword argument.
  unfoldable pub publish :
      ℕ
      → String
      → Payload V B
      → Option String
      → String
      → Option String
      → LocalDurableBroker (Payload V B)
      → LocalDurableBroker (Payload V B)
  publish time stream payload trace_id fresh tenant_id b =
      let m : StreamMessage (Payload V B) = record {
        id = record { time = time; counter = b.counter + 1 };
        stream = stream;
        payload = stamp "tenant_id" tenant_id (stamp "trace_id" trace_id payload);
        consumer_group = none;
        status = pending;
        attempt_count = 0;
        error = none;
        trace_id = get_or trace_id fresh;
      } in
      record b {
        counter = b.counter + 1;
        streams = put_if (lookup stream b.streams) stream m b.streams;
        channels = broadcast (lookup stream b.channels) stream m b.channels;
      }
