-- ===== src/System/StoppableTask.antt =====
-- system/stoppable_task.rs: a main future that races a stop signal.
use sapvi.Error.{Outcome, err}

-- Which branch of `select!` completes first.
pub data Race (A : Type 0) : Type 0 where
  signalled : Race A
  finished : A → Race A

module _ {E A : Type 0} where
  -- What `start` hands to the stop handler.
  unfoldable pub task_result : E → Race (Outcome E A) → Outcome E A
  task_result stop_value signalled = err stop_value
  task_result stop_value (finished result) = result

  unfoldable pub run_task : {H : Type 0} → (Outcome E A → H) → E → Race (Outcome E A) → H
  unfolding task_result
  run_task stop_handler stop_value race = stop_handler (task_result stop_value race)
