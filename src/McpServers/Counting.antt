-- ===== src/McpServers/Counting.antt =====
-- The metrics of an MCP server under its calls: src/services/mcp/stdio_execution.py.
use mathlib.Core.Path.{ap₂}
use Prim.Native.String.{◌++◌ as str_append}
use project_kernel_runtime.Base.{
  ℕ, zero, suc, ◌+◌, ◌*◌, ◌≤◌, ◌≡◌, refl, not, ◌||◌, String, List, [], ◌∷◌, length, arith,
  Bool-cases, inl, inr,
}
use project_kernel_runtime.McpServers.{
  error, Server, ServerMetrics, Tools, Start, not_started, no_tools, started, is_running, is_error,
  start_server, restart_server,
}
use project_kernel_runtime.McpServers.Execution.{
  Answer, answered, broken, failing, Outcome, returned, value_error, protocol_error, Answers,
  call_server, recover, execute_on, called, has_protocol, retried, count_call, count_failure,
}

-- How the metrics stand before and after some calls, of which some returned a value.
pub record AreCounted (calls values : ℕ) (before after : ServerMetrics) : Type 0 where
  pub failures : after.failed_calls + before.total_calls ≤ before.failed_calls + after.total_calls
  pub values_are_calls : values + before.total_calls ≤ after.total_calls
  pub calls_are_tried : after.total_calls ≤ calls + before.total_calls
  pub restarts_grow : before.restart_count ≤ after.restart_count
  pub restarts_are_two : after.restart_count ≤ 2 * calls + before.restart_count

AreCounted-cons :
    {n k l : ℕ} {before between after : ServerMetrics}
    → AreCounted 1 k before between
    → AreCounted n l between after
    → AreCounted (suc n) (k + l) before after
AreCounted-cons h i = record {
  failures = omega (arith, h.failures, i.failures);
  values_are_calls = omega (arith, h.values_are_calls, i.values_are_calls);
  calls_are_tried = omega (arith, h.calls_are_tried, i.calls_are_tried);
  restarts_grow = omega (arith, h.restarts_grow, i.restarts_grow);
  restarts_are_two = omega (arith, h.restarts_are_two, i.restarts_are_two);
}

abbrev pub repeated : {A : Type 0} → ℕ → A → List A
repeated zero x = []
repeated (suc n) x = x ∷ repeated n x

module _ {P : Type 0} where
  -- A restart counts itself and no call.
  restart_server-metrics :
      (answer : Start P) (s : Server P) (t : Tools)
      → (restart_server answer s t).0.metrics
        ≡ record s.metrics { restart_count = s.metrics.restart_count + 1 }
  unfolding restart_server start_server
  restart_server-metrics (not_started e) s t = refl
  restart_server-metrics (no_tools p e) s t = refl
  restart_server-metrics (started p tools) s t = refl

module _ {V : Type 0} where
  abbrev pub is_returned : Outcome V → ℕ
  is_returned (returned v) = 1
  is_returned (value_error e) = 0
  is_returned (protocol_error e) = 0

  -- What a call of a server in error reports.
  abbrev pub not_running_in_error : String → Outcome V
  not_running_in_error name =
      protocol_error (str_append "Server '" (str_append name "' not running (status: error)"))

  abbrev pub returned_count : List (Outcome V) → ℕ
  returned_count [] = 0
  returned_count (o ∷ os) = is_returned o + returned_count os

module _ {V : Type 0} where
  is_returned-retried : (name : String) (w : Answer V) → is_returned (retried name w) ≤ 1
  is_returned-retried name (answered v) = omega arith
  is_returned-retried name (broken e) = omega arith
  is_returned-retried name (failing e) = omega arith

  -- A call that was tried is counted once, and fails at most once.
  IsTried : ServerMetrics → ServerMetrics → Outcome V → Type 0
  IsTried before after o =
      (is_returned o + before.total_calls ≤ after.total_calls)
      × (after.total_calls ≡ 1 + before.total_calls)
      × (before.failed_calls ≤ after.failed_calls)
      × (after.failed_calls ≤ 1 + before.failed_calls)
      × (before.restart_count ≤ after.restart_count)
      × (after.restart_count ≤ 1 + before.restart_count)

-- A recovery counts no call, and one restart at most.
IsRecovered : ServerMetrics → ServerMetrics → Type 0
IsRecovered before after =
    (after.total_calls ≡ before.total_calls)
    × (after.failed_calls ≡ before.failed_calls)
    × (before.restart_count ≤ after.restart_count)
    × (after.restart_count ≤ 1 + before.restart_count)

module _ {P : Type 0} where
  recover-IsRecovered :
      (answer : Start P) (s : Server P) (t : Tools)
      → IsRecovered s.metrics (recover answer s t).0.metrics
  unfolding recover IsRecovered
  recover-IsRecovered answer s t = elim (Bool-cases (is_error s.status)) [
    | inl e ↦ rw (e, restart_server-metrics answer s t) (refl, refl, omega arith, omega arith)
    | inr e ↦ rw e (refl, refl, omega arith, omega arith)
  ]

module _ {P V : Type 0} where
  called-IsTried :
      (answer : Answer V) (name : String) (a : Answers P V) (s : Server P) (t : Tools)
      → let (o, s', t') = called answer name a (count_call s) t in IsTried s.metrics s'.metrics o
  unfolding IsTried
  called-IsTried (answered v) name a s t =
      (omega arith, omega arith, omega arith, omega arith, omega arith, omega arith)
  called-IsTried (broken e) name a s t =
      let after = restart_server-metrics a.restart (count_failure (count_call s)) t in
      let one = is_returned-retried name a.second in
      rw after (omega (arith, one), omega arith, omega arith, omega arith, omega arith, omega arith)
  called-IsTried (failing e) name a s t =
      (omega arith, omega arith, omega arith, omega arith, omega arith, omega arith)

  execute_on-AreCounted :
      (name : String) (a : Answers P V) (s : Server P) (t : Tools)
      → let (o, s', t') = execute_on name a s t in AreCounted 1 (is_returned o) s.metrics s'.metrics
  unfolding execute_on call_server IsRecovered IsTried
  execute_on-AreCounted name a s t =
      let r = recover a.recovery s t in
      let (total, failed, grows, one) = recover-IsRecovered a.recovery s t in
      let (v, c, f, g, rg, ro) = called-IsTried a.first name a r.0 r.1 in
      elim (Bool-cases (not (is_running r.0.status) || not (has_protocol r.0.protocol))) [
        | inl e ↦ rw e (record {
          failures = omega (arith, total, failed);
          values_are_calls = omega (arith, total);
          calls_are_tried = omega (arith, total);
          restarts_grow = grows;
          restarts_are_two = omega (arith, one);
        })
        | inr e ↦ rw e (record {
          failures = omega (arith, total, failed, c, f);
          values_are_calls = omega (arith, total, v);
          calls_are_tried = omega (arith, total, c);
          restarts_grow = omega (arith, grows, rg);
          restarts_are_two = omega (arith, one, ro);
        })
      ]

  -- The calls of one server, one after the other.
  unfoldable pub execute_all :
      String → List (Answers P V) → Server P → Tools → List (Outcome V) × Server P × Tools
  unfolding execute_on
  execute_all name [] s t = ([], s, t)
  execute_all name (a ∷ calls) s t =
      let (o, s', t') = execute_on name a s t in
      let (os, s'', t'') = execute_all name calls s' t' in (o ∷ os, s'', t'')

  -- Over any calls of a server, whatever its restarts and its protocol come to: each call that
  -- returned a value was counted, no call is counted twice, no more failures are added than calls,
  -- and a call restarts the server at most twice.
  pub execute_all-AreCounted :
      (name : String) (calls : List (Answers P V)) (s : Server P) (t : Tools)
      → let (os, s', t') = execute_all name calls s t in
        AreCounted (length calls) (returned_count os) s.metrics s'.metrics
  unfolding execute_all
  execute_all-AreCounted name [] s t = record {
    failures = omega arith;
    values_are_calls = omega arith;
    calls_are_tried = omega arith;
    restarts_grow = omega arith;
    restarts_are_two = omega arith;
  }
  execute_all-AreCounted name (a ∷ calls) s t =
      let (o, s', t') = execute_on name a s t in
      AreCounted-cons (execute_on-AreCounted name a s t) (execute_all-AreCounted name calls s' t')

  execute_on-error :
      (name e : String) (a : Answers P V) (s : Server P) (t : Tools)
      → s.status ≡ error
      → let (o, s', t') = execute_on name (record a { recovery = not_started e }) s t in
        (o ≡ not_running_in_error name)
        × (s'.status ≡ error)
        × (s'.metrics.restart_count ≡ suc s.metrics.restart_count)
  unfolding execute_on recover restart_server start_server
  execute_on-error name e a s t h = rw h (refl, refl, omega arith)

  -- A server in error whose process cannot be started is restarted by every call, without a bound:
  -- after n calls it was restarted n times more and is still in error, and each of the n calls reports
  -- that the server is not running, with the status of an error.
  pub recovery_is_unbounded :
      (name e : String) (n : ℕ) (a : Answers P V) (s : Server P) (t : Tools)
      → s.status ≡ error
      → let calls = repeated n (record a { recovery = not_started e }) in
        let (os, s', t') = execute_all name calls s t in
        (s'.metrics.restart_count ≡ n + s.metrics.restart_count)
        × (s'.status ≡ error)
        × (os ≡ repeated n (not_running_in_error name))
  unfolding execute_all
  recovery_is_unbounded name e zero a s t h = (omega arith, h, refl)
  recovery_is_unbounded name e (suc n) a s t h =
      let (o, s', t') = execute_on name (record a { recovery = not_started e }) s t in
      let (told, still, one) = execute_on-error name e a s t h in
      let (count, stays, all) = recovery_is_unbounded name e n a s' t' still in
      (omega (arith, count, one), stays, ap₂ ◌∷◌ told all)
