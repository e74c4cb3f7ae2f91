-- ===== src/Broker/Tests.antt =====
-- A queue of two messages, one of which always fails.
use Prim.Native.String.{String}
use project_kernel_runtime.Base.{
  ℕ, ◌≡◌, refl, true, ◌||◌, Option, none, some, length, ◌==◌, if◌then◌else◌, arith,
}
use project_kernel_runtime.Base.Dict.{lookup, insert}
use project_kernel_runtime.Broker.{
  MessageId, LocalDurableBroker, Payload, fields, raw, Callback, init, subscribe, publish, queue_of,
  is_completed, round, rounds, handle, set_pending, del_pending,
}
use project_kernel_runtime.Broker.Delivery.{LeavesStream, holds, drains}

abbrev Bytes : Type 0
Bytes = Payload String ℕ

-- The payload 13 makes the callback raise.
abbrev unlucky : Bytes → Option String
unlucky (fields d) = none
unlucky (raw n) = if n == 13 then some "boom" else none

abbrev callback : Callback Bytes
callback m b = (unlucky m.payload, b)

abbrev two_messages : LocalDurableBroker Bytes
two_messages =
    publish (λ s. s) 9 "task_queue" (raw 13) none "t1" none
      (publish (λ s. s) 8 "task_queue" (raw 7) none "t0" none (subscribe "task_queue" init))

abbrev second_id : MessageId
second_id = record { time = 9; counter = 2 }

after_six : LocalDurableBroker Bytes
after_six = rounds 6 "task_queue" "brain-workers" callback two_messages

leaves : LeavesStream "task_queue" "brain-workers" callback
leaves m b = (refl, refl, refl)

drains_example : (is_completed second_id after_six || holds second_id after_six.dlq) ≡ true
unfolding after_six queue_of publish subscribe init lookup insert
drains_example =
    (drains "task_queue" "brain-workers" callback two_messages second_id leaves (omega arith)
      refl).1

dead_letters : length after_six.dlq ≡ 1
unfolding after_six rounds round handle queue_of publish subscribe init lookup insert is_completed
    set_pending del_pending
dead_letters = refl

-- The dead letter is still among the pending messages.
still_pending : holds second_id after_six.pending ≡ true
unfolding after_six rounds round handle queue_of publish subscribe init lookup insert is_completed
    set_pending del_pending
still_pending = refl
