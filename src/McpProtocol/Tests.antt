-- ===== src/McpProtocol/Tests.antt =====
-- A tool's answer comes late, after its call was given up, and two more calls follow.
use project_kernel_runtime.Base.{
  ℕ, ◌<◌, ◌≡◌, refl, false, none, some, List, [], ◌∷◌, ◌++◌, map, take, drop, arith,
}
use project_kernel_runtime.McpProtocol.{
  JsonRpcResponse, Line, Failure, Reply, Protocol, answer, read_line, read_response, send_request,
  call_tool,
}
use project_kernel_runtime.McpProtocol.Order.{
  Quiet, notifications, quiet_then, Segment, lines_of, calls, segments, answers_in_order,
}

abbrev answer_of : ℕ → ℕ → JsonRpcResponse ℕ
answer_of id value = record { id = some id; result = some value; error = none }

one_event : notifications (Quiet.blank ∷ Quiet.event "progress" ∷ []) < 50
unfolding notifications
one_event = omega arith

abbrev plainly : JsonRpcResponse ℕ → Segment ℕ
plainly r = record {
  before = Quiet.blank ∷ Quiet.event "progress" ∷ [];
  few = one_event;
  answered = r;
}

abbrev lagging : Protocol ℕ
lagging = record {
  request_id = 1;
  initialized = false;
  written = [];
  unread = Line.noise ∷ Line.notification "progress" ∷ Line.response (answer_of 1 100) ∷ [];
}

abbrev two_calls : List (ℕ × Segment ℕ × Failure)
two_calls =
    (2, plainly (answer_of 2 200), Failure.timed_out)
    ∷ (3, plainly (answer_of 3 300), Failure.timed_out)
    ∷ []

one_behind :
    (calls two_calls lagging).0 ≡ Reply.returned (some 100) ∷ Reply.returned (some 200) ∷ []
unfolding calls call_tool send_request read_response read_line lines_of quiet_then
one_behind = refl

answers_in_order_example :
    let all = (plainly (answer_of 1 100) ∷ []) ++ segments two_calls in
    let (replies, p') = calls two_calls lagging in
    (replies ≡ map (λ s. answer s.answered) (take 2 all)) × (p'.unread ≡ lines_of (drop 2 all))
unfolding lines_of quiet_then
answers_in_order_example = answers_in_order two_calls lagging (plainly (answer_of 1 100) ∷ []) refl
