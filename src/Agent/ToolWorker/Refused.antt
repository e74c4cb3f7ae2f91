-- ===== src/Agent/ToolWorker/Refused.antt =====
-- Calls that governance does not let pass: src/services/agent_loop/tool_worker.py.
use project_kernel_runtime.Base.{◌≡◌, refl, ◌≢◌, some, List, [], ◌∷◌, All}
use project_kernel_runtime.Governance.{
  allowed, approval_required, not_permitted, temp_write, path_escapes,
}
use project_kernel_runtime.Store.{SessionModel}
use project_kernel_runtime.Agent.{ToolSpec, ToolEvent, World, tool_executing, task_log, publish}
use project_kernel_runtime.Agent.ToolWorker.{
  Environment, Router, Judgement, verdict, get_raises, verdict_of, act, process_tool, process_tools,
  with_session, process_tool_event, find_session,
}

module _ (env : Environment) (router router' : Router) where
  act_not_run :
      (session : SessionModel) (event : ToolEvent) (spec : ToolSpec) (j : Judgement) (w : World)
      → j ≢ verdict allowed
      → act env router session event spec j w ≡ act env router' session event spec j w
  unfolding act
  act_not_run session event spec (verdict allowed) w n = absurd (n refl)
  act_not_run session event spec (verdict approval_required) w n = refl
  act_not_run session event spec (verdict not_permitted) w n = refl
  act_not_run session event spec (verdict temp_write) w n = refl
  act_not_run session event spec (verdict path_escapes) w n = refl
  act_not_run session event spec (get_raises v) w n = refl

  tools_not_run :
      (session : SessionModel) (event : ToolEvent) (specs : List ToolSpec) (w : World)
      → All (λ spec. verdict_of env session spec ≢ verdict allowed) specs
      → process_tools env router session event specs w
        ≡ process_tools env router' session event specs w
  unfolding process_tools process_tool
  tools_not_run session event [] w a = refl
  tools_not_run session event (spec ∷ specs) w a =
      let same =
        act_not_run session event spec (verdict_of env session spec)
          (publish (task_log event.task_id (tool_executing spec.name)) w) a.0 in
      rw same (rw (tools_not_run session event specs _ a.1) refl)

  -- Tools that governance does not let pass are not run: a batch in which none is allowed leaves the
  -- same messages and events whatever the router would make of the tools.
  pub refused_not_run :
      (event : ToolEvent) (session : SessionModel) (w : World)
      → find_session event.session_id event.tenant_id w.db ≡ some session
      → All (λ spec. verdict_of env session spec ≢ verdict allowed) event.tools
      → process_tool_event env router event w ≡ process_tool_event env router' event w
  unfolding process_tool_event with_session
  refused_not_run event session w e a =
      rw (e, with_session) (rw (tools_not_run session event event.tools w a) refl)
