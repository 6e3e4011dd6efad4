-- ===== src/Artifacts/Operations.antt =====
-- The calls that the requests and the workers make of the registry, in any order.
use conversation_service.Prelude.{List, [], ◌∷◌}
use conversation_service.Model.{Uuid, Text}
use conversation_service.Artifacts.{Registry, Host}
use conversation_service.Artifacts.Worker.{advance, run_once}
use conversation_service.Artifacts.Registration.{Request, register, retry, mark_object_missing}

pub data Operation : Type 0 where
  registration : Request → Operation
  worker_pass : Operation
  wake_up : Uuid → Operation
  retry_request : Uuid → Uuid → Operation
  missing_object : Uuid → Operation

module _ (host : Host) (sha256 : Text → Text) (uuid5 : Text → Uuid) (str : Uuid → Text) where
  unfoldable pub execute : Operation → Registry → Registry
  execute (registration r) s = (register host sha256 uuid5 str r s).1
  execute worker_pass s = (run_once host s).1
  execute (wake_up i) s = (advance host i s).1
  execute (retry_request owner i) s = (retry host owner i s).1
  execute (missing_object i) s = (mark_object_missing host i s).1

  unfoldable pub execute_all : List Operation → Registry → Registry
  unfolding execute
  execute_all [] s = s
  execute_all (o ∷ os) s = execute_all os (execute o s)
