-- ===== src/Scheduler/Log.antt =====
-- Which messages of the log are kept (`SchedulerFilter` of app/scheduler.py).
use validation_node.Prelude.{false, ◌++◌, ◌≡◌, ◌↔◌, ◌⊎◌, arith, inl, inr, Bool-cases}
use validation_node.Prelude.Texts.{codes, has_part, has_part_iff}
use validation_node.Database.Schema.{Text}
use validation_node.Scheduler.{keeps_message}

-- A message is dropped exactly if 'Running job' or 'executed successfully' stands somewhere in it.
pub keeps_message_iff :
    (msg : Text)
    → (keeps_message msg ≡ false) ↔ (
        ((before : Text) × (after : Text) × (msg ≡ before ++ (codes "Running job" ++ after)))
        ⊎ ((before : Text) × (after : Text) × (msg
              ≡ before ++ (codes "executed successfully" ++ after))))
unfolding keeps_message
keeps_message_iff msg = (
  λ h. elim (Bool-cases (has_part (codes "Running job") msg)) [
    | inl first ↦ inl ((has_part_iff (codes "Running job") msg).0 first)
    | inr other ↦
        inr ((has_part_iff (codes "executed successfully") msg).0 (ground (arith, h, other)))
  ],
  λ h. elim h [
    | inl found ↦ ground (arith, (has_part_iff (codes "Running job") msg).1 found)
    | inr found ↦ ground (arith, (has_part_iff (codes "executed successfully") msg).1 found)
  ],
)
