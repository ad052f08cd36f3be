-- ===== src/Examples/Operations.antt =====
-- The theorems on the operations of internal/history/history.go at concrete inputs.
use my_temp.Common.{String_eq, ℕ_eq, ◌⊎◌, none}
use my_temp.Persistence.Ends.{Ends, Cause}
use my_temp.Frontend.{unmarshal_commands}
use my_temp.Spec.Start.{WorkflowStarts, StartRefused, start_workflow-WorkflowStarts}
use my_temp.Spec.WorkflowTask.{
  TaskDropped, CommandsRecorded, WorkflowTaskRefused, complete_workflow_task-Ends,
}
use my_temp.Spec.ActivityTask.{ActivityRefused}
use my_temp.Spec.ActivityTask.Reports.{Completion, complete_activity_task-Completion}
use my_temp.Spec.Signal.{SignalDelivered, SignalRefused, signal_workflow-SignalDelivered}
use my_temp.Spec.Timers.{ScanRefused}
use my_temp.Spec.Timers.Rows.{Scan, scan_timers-Scan}
use my_temp.Spec.Polling.Rows.{TookTask, poll_task-TookTask}
use my_temp.Spec.Polling.Freed.{FreedLeases, reclaim_expired_leases-FreedLeases}
use my_temp.Examples.{after_first, started_one, started_two, at_activity, calm_at, charge_and_wait}
use my_temp.Frontend.{unmarshal_commands}
use my_temp.History.ActivityTask.{complete_activity_task}
use my_temp.History.Signal.{signal_workflow}
use my_temp.History.Start.{start_workflow}
use my_temp.History.Timers.{scan_timers}
use my_temp.History.WorkflowTask.{complete_workflow_task}
use my_temp.Persistence.{poll_task, reclaim_expired_leases}

start_workflow-WorkflowStarts_example :
    Ends
      (Cause
        (calm_at 11 "run-3")
        (StartRefused (calm_at 11 "run-3") "order-3" "Order" "orders" none started_two))
      (WorkflowStarts (calm_at 11 "run-3") "order-3" "Order" "orders" none started_two)
      (start_workflow (calm_at 11 "run-3") "order-3" "Order" "orders" none)
      started_two
start_workflow-WorkflowStarts_example =
    start_workflow-WorkflowStarts (calm_at 11 "run-3") "order-3" "Order" "orders" none started_two

complete_workflow_task-Ends_example :
    let cmds = unmarshal_commands charge_and_wait.commands in
    Ends
      (Cause
        (calm_at 12 "")
        (WorkflowTaskRefused (calm_at 12 "") 1 "order-1" "run-1" cmds started_one))
      (λ _ w'.
        TaskDropped (calm_at 12 "") 1 "order-1" "run-1" cmds started_one w'
        ⊎ CommandsRecorded (calm_at 12 "") 1 "order-1" "run-1" cmds started_one w')
      (complete_workflow_task (calm_at 12 "") 1 "order-1" "run-1" cmds)
      started_one
complete_workflow_task-Ends_example =
    complete_workflow_task-Ends (calm_at 12 "") 1 "order-1" "run-1"
      (unmarshal_commands charge_and_wait.commands) started_one

complete_activity_task-Completion_example :
    Ends
      (Cause (calm_at 13 "") (ActivityRefused (calm_at 13 "") 2 "order-1" "run-1" at_activity))
      (λ _. Completion (calm_at 13 "") 2 "order-1" "run-1" none at_activity)
      (complete_activity_task (calm_at 13 "") 2 "order-1" "run-1" none)
      at_activity
complete_activity_task-Completion_example =
    complete_activity_task-Completion (calm_at 13 "") 2 "order-1" "run-1" none at_activity

signal_workflow-SignalDelivered_example :
    Ends
      (Cause (calm_at 13 "") (SignalRefused (calm_at 13 "") "order-1" "" "paid" none at_activity))
      (λ _. SignalDelivered (calm_at 13 "") "order-1" "" "paid" none at_activity)
      (signal_workflow (calm_at 13 "") "order-1" "" "paid" none)
      at_activity
signal_workflow-SignalDelivered_example =
    signal_workflow-SignalDelivered (calm_at 13 "") "order-1" "" "paid" none at_activity

scan_timers-Scan_example :
    Ends
      (Cause (calm_at 14 "") (ScanRefused at_activity.db))
      (λ _. Scan (calm_at 14 "") at_activity)
      (scan_timers (calm_at 14 ""))
      at_activity
scan_timers-Scan_example = scan_timers-Scan (calm_at 14 "") at_activity

poll_task-TookTask_example :
    Ends
      (Cause (calm_at 20 "") ⊥)
      (TookTask (calm_at 20 "") "orders" "workflow" "w1" started_two)
      (poll_task (calm_at 20 "") "orders" "workflow" "w1")
      started_two
poll_task-TookTask_example = poll_task-TookTask (calm_at 20 "") "orders" "workflow" "w1" started_two

reclaim_expired_leases-FreedLeases_example :
    Ends
      (Cause (calm_at 60 "") ⊥)
      (FreedLeases (calm_at 60 "") after_first)
      (reclaim_expired_leases (calm_at 60 ""))
      after_first
reclaim_expired_leases-FreedLeases_example =
    reclaim_expired_leases-FreedLeases (calm_at 60 "") after_first
