-- ===== src/Plans/Runs.antt =====
-- The methods of services/orchestrator/src/queue/PlanQueueManager.ts, the executions of steps and the
-- completions that come in, one after another, in any order.
use ai_agent_tool.Common.{ℕ, ◌≡◌, Bool, Option, some, List, [], ◌∷◌, String, none}
use ai_agent_tool.Plans.Data.{PlanMetadata, PlanSubject}
use ai_agent_tool.Plans.Store.{PlanStateStore, absent, new_store, ensure_loaded, get_plan_metadata}
use ai_agent_tool.Plans.Queue.{Env, PlanQueue, release_next_plan_steps}
use ai_agent_tool.Plans.Decisions.{
  Plan, submit_plan_steps, ApprovalDecision, resolve_plan_step_approval, rehydrate_pending_steps,
}
use ai_agent_tool.Plans.Completion.{Message, process_message}
use ai_agent_tool.Plans.Order.{IsInStep, IsOrderly, get_plan-IsInStep, IsLoaded, load-IsLoaded}
use ai_agent_tool.Plans.Sequence.{IsSequential}
use ai_agent_tool.Plans.Releases.{release-IsSequential}
use ai_agent_tool.Plans.Methods.{submit-IsSequential, resolve-IsSequential}
use ai_agent_tool.Plans.Rehydrated.{rehydrate-IsSequential}
use ai_agent_tool.Plans.Service.{PlanJob, clear_all}
use ai_agent_tool.Plans.Steps.{Work, process_job}
use ai_agent_tool.Plans.Executed.{process_job-IsSequential}
use ai_agent_tool.Plans.Completed.{process-IsSequential}

-- What happens to a queue manager; what the world around it does is a part of each event.
pub data Event : Type 0 where
  submission :
      (env : Env) (plan : Plan) (trace_id : String) (request_id : Option String)
      (subject : Option PlanSubject)
      → Event
  decision :
      (env : Env) (plan_id step_id : String) (answer : ApprovalDecision) (summary : Option String)
      → Event
  completion : (env : Env) (message : Message) → Event
  release : (env : Env) (plan_id : String) → Event
  rehydration : (env : Env) → Event
  execution :
      (env : Env) (work : Work) (job : PlanJob) (trace : Option String) (id : String) → Event
  restart : (now : ℕ) (retention : Option ℕ) (faults : List Bool) → Event

-- A new process, on the same file and the same queue of steps; it does not start where the file cannot
-- be read.
unfoldable pub start_again : PlanQueue → Option PlanStateStore → PlanQueue
start_again q none = q
start_again q (some s) = record q {
  service = clear_all (record q.service { store = s });
  plan_sessions = [];
  session_ref_counts = [];
}

unfoldable pub handle : PlanQueue → Event → PlanQueue
handle q (submission env plan trace_id request_id subject) =
    (submit_plan_steps q env plan trace_id request_id subject).0
handle q (decision env plan_id step_id answer summary) =
    (resolve_plan_step_approval q env plan_id step_id answer summary).0
handle q (completion env message) = (process_message q env message).0
handle q (release env plan_id) = (release_next_plan_steps q env plan_id).0
handle q (rehydration env) = (rehydrate_pending_steps q env).0
handle q (execution env work job trace id) = (process_job q env work job trace id).0
handle q (restart now retention faults) =
    start_again q (ensure_loaded (new_store retention q.service.store.file faults) now)

unfoldable pub run : PlanQueue → List Event → PlanQueue
run q [] = q
run q (e ∷ es) = run (handle q e) es

start-IsSequential :
    (q : PlanQueue) (o : Option PlanStateStore)
    → IsSequential q
    → IsLoaded o
    → IsSequential (start_again q o)
unfolding start_again clear_all
start-IsSequential q none h l = h
start-IsSequential q (some s) h l = l

restart-IsLoaded :
    (s : PlanStateStore) (now : ℕ) (retention : Option ℕ) (faults : List Bool)
    → IsOrderly s
    → IsLoaded (ensure_loaded (new_store retention s.file faults) now)
unfolding ensure_loaded new_store
restart-IsLoaded s now retention faults h =
    load-IsLoaded (new_store retention s.file faults) now s.file (tt, h.1) h.1

handle-IsSequential : (q : PlanQueue) (e : Event) → IsSequential q → IsSequential (handle q e)
unfolding handle
handle-IsSequential q (submission env plan trace_id request_id subject) h =
    submit-IsSequential env q plan trace_id request_id subject h
handle-IsSequential q (decision env plan_id step_id answer summary) h =
    resolve-IsSequential env q plan_id step_id answer summary h
handle-IsSequential q (completion env message) h = process-IsSequential env q message h
handle-IsSequential q (release env plan_id) h = release-IsSequential env q plan_id h
handle-IsSequential q (rehydration env) h = rehydrate-IsSequential env q h
handle-IsSequential q (execution env work job trace id) h =
    process_job-IsSequential env work q job trace id h
handle-IsSequential q (restart now retention faults) h =
    start-IsSequential q (ensure_loaded (new_store retention q.service.store.file faults) now) h
      (restart-IsLoaded q.service.store now retention faults h)

pub run-IsSequential : (q : PlanQueue) (es : List Event) → IsSequential q → IsSequential (run q es)
unfolding run
run-IsSequential q [] h = h
run-IsSequential q (e ∷ es) h = run-IsSequential (handle q e) es (handle-IsSequential q e h)

-- The manager of an empty store.
unfoldable pub new_queue : (retention : Option ℕ) (faults : List Bool) → PlanQueue
new_queue retention faults = record {
  service = record {
    store = new_store retention absent faults;
    step_registry = [];
    approval_cache = [];
    plan_subjects = [];
    retained_plan_subjects = [];
  };
  enqueued = [];
  events = [];
  plan_sessions = [];
  session_ref_counts = [];
  released_sessions = [];
}

pub new_queue-IsSequential :
    (retention : Option ℕ) (faults : List Bool) → IsSequential (new_queue retention faults)
unfolding new_queue new_store
new_queue-IsSequential retention faults = (tt, tt)

-- The release of a plan's steps stays in step with their completions. Begin with an empty store,
-- whose writes may fail, and take any submissions, approvals, rejections, executions of steps,
-- completions, releases, rehydrations and restarts on the store's file, in any order, whatever the
-- policy, the tools, the plan lock and the queue of steps do. Of each plan that the store then
-- has, nextStepIndex is one or two more than lastCompletedIndex (the furthest completed step, -1
-- where there is none), and at most the number of the plan's steps.
pub run-IsInStep :
    (retention : Option ℕ) (faults : List Bool) (es : List Event) (now : ℕ) (plan_id : String)
    (m : PlanMetadata)
    → (get_plan_metadata (run (new_queue retention faults) es).service.store now plan_id).1 ≡ some m
    → IsInStep m
run-IsInStep retention faults es now plan_id m e =
    get_plan-IsInStep (run (new_queue retention faults) es).service.store now
      (run-IsSequential (new_queue retention faults) es (new_queue-IsSequential retention faults))
      plan_id m e
