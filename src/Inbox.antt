-- ===== src/Inbox.antt =====
-- app/repositories/inbox_repository.py
use conversation_service.Prelude.{Bool, true, ◌==◌, if◌then◌else◌}
use conversation_service.Model.{Uuid}
use conversation_service.State.{World, inbox_exists, inbox_save, Env}
use conversation_service.Errors.{Method, ◌>>◌, return}
use conversation_service.Messages.{calls}

module _ (env : Env) where
  unfoldable pub save : Uuid → Method World (Unit {0})
  save event_id = do
    calls env inbox_save
    λ w. return tt (record w { inbox = λ e. if e == event_id then true else w.inbox e })

  unfoldable pub exists : Uuid → Method World Bool
  exists event_id = do calls env inbox_exists; λ w. return (w.inbox event_id) w
