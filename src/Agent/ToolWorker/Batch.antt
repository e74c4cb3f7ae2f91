-- ===== src/Agent/ToolWorker/Batch.antt =====
-- What a batch of tool calls leads to.
use project_kernel_runtime.Base.{
  ◌+◌, ◌≡◌, refl, sym, ap, inl, inr, Bool, true, false, ◌||◌, ◌&&◌, not, Option, none, some, String,
  List, [], ◌∷◌, ◌++◌, map, map-append, append_assoc, append-nil, any, if◌then◌else◌, ◌∙◌,
  Bool-cases, arith,
}
use project_kernel_runtime.Governance.{
  allowed, approval_required, not_permitted, temp_write, path_escapes,
}
use project_kernel_runtime.Store.{SessionModel, MessageModel, Draft, persist_message}
use project_kernel_runtime.Agent.{
  ToolArgs, dict, not_dict, ToolSpec, ToolEvent, World, Published, LogEvent, tool_executing,
  task_log, task_queue, execution_queue, resolved_queue, publish, persist, commit, count,
}
use project_kernel_runtime.Agent.ToolWorker.{
  Environment, Router, refuse, re_trigger_brain, Judgement, verdict, get_raises, Progress, passed,
  waiting, raised, report, run_tool, run_registered, finish, go_on, with_waiting, ask_approval,
  deny, verdict_of, think_event, carry_out, act, process_tool, process_tools, with_session,
  process_tool_event, find_session,
}

abbrev pub answered : List MessageModel → List (Option String)
answered = map (λ m. m.tool_call_id)

abbrev pub is_think : Published → Bool
is_think (task_queue e) = true
is_think (task_log t e) = false
is_think (execution_queue e) = false
is_think (resolved_queue t s o) = false

abbrev pub waits : Judgement → Bool
waits (verdict approval_required) = true
waits (verdict allowed) = false
waits (verdict not_permitted) = false
waits (verdict temp_write) = false
waits (verdict path_escapes) = false
waits (get_raises v) = false

abbrev pub is_allowed : Judgement → Bool
is_allowed (verdict allowed) = true
is_allowed (verdict approval_required) = false
is_allowed (verdict not_permitted) = false
is_allowed (verdict temp_write) = false
is_allowed (verdict path_escapes) = false
is_allowed (get_raises v) = false

abbrev pub is_dict : ToolArgs → Bool
is_dict (dict args) = true
is_dict (not_dict v) = false

count-append :
    (p : Published → Bool) (xs ys : List Published) → count p (xs ++ ys) ≡ count p xs + count p ys
count-append p [] ys = omega arith
count-append p (x ∷ xs) ys = ground (arith, count-append p xs ys)

-- What one tool changes: one message, answering its call; no event for the brain; and a commit.
record Answers (id : Option String) (w w' : World) : Type 0 where
  messages : answered w'.db.messages ≡ answered w.db.messages ++ id ∷ []
  thinks : count is_think w'.published ≡ count is_think w.published
  saved : w'.saved ≡ w'.db

write-Answers :
    (task session_id : String) (before after : LogEvent) (d : Draft) (w : World)
    → Answers d.tool_call_id w (
        publish
          (task_log task after)
          (commit (persist session_id d (publish (task_log task before) w))))
unfolding publish persist commit persist_message
write-Answers task session_id before after d w = record {
  messages = map-append (λ m. m.tool_call_id) w.db.messages _;
  thinks = omega (
    arith,
    count-append is_think (w.published ++ task_log task before ∷ []) (task_log task after ∷ []),
    count-append is_think w.published (task_log task before ∷ []),
  );
  saved = refl;
}

module _ (env : Environment) (session : SessionModel) where
  unfoldable pub any_waits : List ToolSpec → Bool
  any_waits = any (λ spec. waits (verdict_of env session spec))

  -- A call that is allowed, of a tool that is registered, with arguments that are no dict.
  unfoldable pub raises : ToolSpec → Bool
  raises spec =
      is_allowed (verdict_of env session spec)
      && env.registered spec.name
      && not (is_dict spec.args)

  unfoldable pub any_raises : List ToolSpec → Bool
  any_raises = any raises

  -- The identifiers of the calls in front of the first that raises.
  unfoldable pub ids_until_raise : List ToolSpec → List (Option String)
  ids_until_raise [] = []
  ids_until_raise (spec ∷ specs) =
      let rest = ids_until_raise specs in if raises spec then [] else spec.id ∷ rest

module _ (env : Environment) (session : SessionModel) where
  ids_until_raise-none :
      (specs : List ToolSpec)
      → any_raises env session specs ≡ false
      → ids_until_raise env session specs ≡ map (λ spec. spec.id) specs
  unfolding ids_until_raise any_raises
  ids_until_raise-none [] h = refl
  ids_until_raise-none (spec ∷ specs) h = elim (Bool-cases (raises env session spec)) [
    | inl e ↦ cc (rw e at h)
    | inr e ↦ rw e (ap (◌∷◌ spec.id) (ids_until_raise-none specs (rw e at h)))
  ]

  ids_until_raise-all :
      (specs : List ToolSpec)
      → ids_until_raise env session specs ≡ (
          if any_raises env session specs
          then ids_until_raise env session specs
          else map (λ spec. spec.id) specs)
  ids_until_raise-all specs = elim (Bool-cases (any_raises env session specs)) [
    | inl e ↦ rw e refl
    | inr e ↦ rw e (ids_until_raise-none specs e)
  ]

-- How far the worker gets when a call raises, or none does and one waits.
abbrev pub progress_of : Bool → Bool → Progress
progress_of true one_waits = raised
progress_of false true = waiting
progress_of false false = passed

with_waiting-progress_of : (r wt : Bool) → with_waiting (progress_of r wt) ≡ progress_of r true
with_waiting-progress_of true wt = refl
with_waiting-progress_of false true = refl
with_waiting-progress_of false false = refl

-- What becomes of some tools, of which some answer their calls.
record Handled (r wt : Bool) (ids : List (Option String)) (w : World) (out : World × Progress)
    : Type 0 where
  progress : out.1 ≡ progress_of r wt
  messages : answered out.0.db.messages ≡ answered w.db.messages ++ ids
  thinks : count is_think out.0.published ≡ count is_think w.published
  saved : w.saved ≡ w.db → out.0.saved ≡ out.0.db

answer-Handled :
    (wt : Bool) (id : Option String) (w w' : World)
    → Answers id w w'
    → Handled false wt (id ∷ []) w (w', progress_of false wt)
answer-Handled wt id w w' a = record {
  progress = refl;
  messages = a.messages;
  thinks = a.thinks;
  saved = λ h. a.saved;
}

go_on-Handled :
    (r wt rs ws : Bool) (id : Option String) (ids : List (Option String)) (w : World)
    (one rest : World × Progress)
    → Handled r wt (if r then [] else id ∷ []) w one
    → Handled rs ws ids one.0 rest
    → Handled (r || rs) (wt || ws) (if r then [] else id ∷ ids) w (go_on one rest)
go_on-Handled true wt rs ws id ids w (w', p) rest h i =
    rw h.progress
      (record { progress = refl; messages = h.messages; thinks = h.thinks; saved = h.saved })
go_on-Handled false true rs ws id ids w (w', p) (w'', q) h i = rw h.progress (record {
  progress = ap with_waiting i.progress ∙ with_waiting-progress_of rs ws;
  messages =
      i.messages
      ∙ ap (λ l. l ++ ids) h.messages
      ∙ append_assoc (answered w.db.messages) (id ∷ []) ids;
  thinks = i.thinks ∙ h.thinks;
  saved = λ s. i.saved (h.saved s);
})
go_on-Handled false false rs ws id ids w (w', p) (w'', q) h i = rw h.progress (record {
  progress = i.progress;
  messages =
      i.messages
      ∙ ap (λ l. l ++ ids) h.messages
      ∙ append_assoc (answered w.db.messages) (id ∷ []) ids;
  thinks = i.thinks ∙ h.thinks;
  saved = λ s. i.saved (h.saved s);
})

abbrev is_none : Option String → Bool
is_none none = true
is_none (some s) = false

module _ (env : Environment) (router : Router) where
  run_tool-none :
      (session : SessionModel) (event : ToolEvent) (spec : ToolSpec)
      → is_none (run_tool env router session event spec)
        ≡ (env.registered spec.name && not (is_dict spec.args))
  unfolding run_tool
  run_tool-none session event spec = elim (Bool-cases (env.registered spec.name)) [
    | inl e ↦ rw e (registered-none session event spec.name spec.args)
    | inr e ↦ rw e refl
  ]
    where
      registered-none :
          (session : SessionModel) (event : ToolEvent) (name : String) (args : ToolArgs)
          → is_none (run_registered env router session event name args) ≡ not (is_dict args)
      registered-none session event name (dict given) = refl
      registered-none session event name (not_dict v) = refl

  report-Handled :
      (event : ToolEvent) (spec : ToolSpec) (o : Option String) (w : World)
      → Handled
          (is_none o)
          false
          (if is_none o then [] else spec.id ∷ [])
          w
          (report event spec o (publish (task_log event.task_id (tool_executing spec.name)) w))
  unfolding publish
  report-Handled event spec none w = record {
    progress = refl;
    messages = sym (append-nil (answered w.db.messages));
    thinks = omega (
      arith,
      count-append is_think w.published (task_log event.task_id (tool_executing spec.name) ∷ []),
    );
    saved = λ h. h;
  }
  report-Handled event spec (some out) w =
      answer-Handled false spec.id w _ (write-Answers event.task_id event.session_id _ _ _ w)

  act-Handled :
      (session : SessionModel) (event : ToolEvent) (spec : ToolSpec) (j : Judgement) (w : World)
      → let r = is_allowed j && env.registered spec.name && not (is_dict spec.args) in
        Handled r (waits j) (if r then [] else spec.id ∷ []) w (
          act env router session event spec j
            (publish (task_log event.task_id (tool_executing spec.name)) w))
  unfolding act carry_out ask_approval deny refuse
  act-Handled session event spec (verdict allowed) w =
      rw (sym (run_tool-none session event spec))
        (report-Handled event spec (run_tool env router session event spec) w)
  act-Handled session event spec (verdict approval_required) w =
      answer-Handled true spec.id w _ (write-Answers event.task_id event.session_id _ _ _ w)
  act-Handled session event spec (verdict not_permitted) w =
      answer-Handled false spec.id w _ (write-Answers event.task_id event.session_id _ _ _ w)
  act-Handled session event spec (verdict temp_write) w =
      answer-Handled false spec.id w _ (write-Answers event.task_id event.session_id _ _ _ w)
  act-Handled session event spec (verdict path_escapes) w =
      answer-Handled false spec.id w _ (write-Answers event.task_id event.session_id _ _ _ w)
  act-Handled session event spec (get_raises v) w =
      answer-Handled false spec.id w _ (write-Answers event.task_id event.session_id _ _ _ w)

  tools-Handled :
      (session : SessionModel) (event : ToolEvent) (specs : List ToolSpec) (w : World)
      → Handled
          (any_raises env session specs)
          (any_waits env session specs)
          (ids_until_raise env session specs)
          w
          (process_tools env router session event specs w)
  unfolding process_tools process_tool any_waits any_raises raises ids_until_raise
  tools-Handled session event [] w = record {
    progress = refl;
    messages = sym (append-nil (answered w.db.messages));
    thinks = refl;
    saved = λ h. h;
  }
  tools-Handled session event (spec ∷ specs) w =
      let one = process_tool env router session event spec w in
      go_on-Handled (raises env session spec) (waits (verdict_of env session spec))
        (any_raises env session specs) (any_waits env session specs) spec.id
        (ids_until_raise env session specs) w one
        (process_tools env router session event specs one.0)
        (act-Handled session event spec (verdict_of env session spec) w)
        (tools-Handled session event specs one.0)

  finish-Handled :
      (event : ToolEvent) (r wt : Bool) (ids : List (Option String)) (w : World)
      (out : World × Progress)
      → Handled r wt ids w out
      → let (w', progress) = finish event out in
        (progress ≡ progress_of r wt)
        × (answered w'.db.messages ≡ answered w.db.messages ++ ids)
        × (count is_think w'.published ≡ count is_think w.published + (if r || wt then 0 else 1))
        × (w.saved ≡ w.db → w'.saved ≡ w'.db)
  unfolding re_trigger_brain publish
  finish-Handled event true wt ids w (w', p) h =
      rw h.progress (refl, h.messages, omega (arith, h.thinks), h.saved)
  finish-Handled event false true ids w (w', p) h =
      rw h.progress (refl, h.messages, omega (arith, h.thinks), h.saved)
  finish-Handled event false false ids w (w', p) h = rw h.progress (
    refl,
    h.messages,
    omega
        (arith, h.thinks, count-append is_think w'.published (task_queue (think_event event) ∷ [])),
    h.saved,
  )

  -- A batch of a session that the worker finds. Where the arguments of no call that is allowed and
  -- names a registered tool are other than a dict, the worker gets to its end, and each call has
  -- exactly one answer, in the order of the calls and under its identifier, whether it ran, failed, is
  -- unknown, was denied or waits; the brain is woken once if no call waits for approval and not at all
  -- if one does. Else an exception leaves the worker at the first such call: the calls in front
  -- of it are answered, it and those after it are not, and the brain is not woken. In both cases, if
  -- everything was committed before, everything is at the end.
  pub batch_answers_all :
      (event : ToolEvent) (session : SessionModel) (w : World)
      → find_session event.session_id event.tenant_id w.db ≡ some session
      → let (w', progress) = process_tool_event env router event w in
        let raising = any_raises env session event.tools in
        let one_waits = any_waits env session event.tools in
        (progress ≡ progress_of raising one_waits)
        × (answered w'.db.messages
            ≡ answered w.db.messages
              ++ (if raising
                  then ids_until_raise env session event.tools
                  else map (λ spec. spec.id) event.tools))
        × (count is_think w'.published
            ≡ count is_think w.published + (if raising || one_waits then 0 else 1))
        × (w.saved ≡ w.db → w'.saved ≡ w'.db)
  unfolding process_tool_event with_session
  batch_answers_all event session w e =
      let (progress, messages, thinks, saved) =
        finish-Handled event (any_raises env session event.tools)
          (any_waits env session event.tools) (ids_until_raise env session event.tools) w
          (process_tools env router session event event.tools w)
          (tools-Handled session event event.tools w) in
      rw (e, with_session)
        (
          progress,
          messages
              ∙ ap (λ l. answered w.db.messages ++ l) (ids_until_raise-all env session event.tools),
          thinks,
          saved,
        )
