-- ===== src/Control/Maintenance/Outcomes.antt =====
-- src/dfsha/control/distributed.py, `ReportTask`: what a finished copy confirms, and reports that come
-- again.
use dfsha.Control.Table.{put}
use dfsha.Control.State.{Meta, Task}
use dfsha.Control.Maintenance.{TaskReport}

-- The row that a report leaves, and the store before it is written.
ended : Meta → TaskReport → Task → Meta
ended tx req task = record tx {
  tasks = put tx.tasks req.task.task_id (record task { status = req.task; reserved = 0 });
}
