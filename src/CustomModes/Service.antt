-- ===== src/CustomModes/Service.antt =====
-- `CustomModeService` of app/services/custom_mode_service.py over the table of custom modes, with the
-- schemas that it answers with (app/models/custom_modes.py).
use conversation_service.Prelude.{ℕ, Bool, true, false, Option, none, some, if◌then◌else◌}
use conversation_service.Model.{Uuid, Time, Text}
use conversation_service.State.{CustomModeSnapshot}
use conversation_service.Errors.{
  Method, return, fail, ◌>>=◌, custom_mode_not_found, custom_mode_unavailable,
}
use conversation_service.CustomModes.{custom_ref}
use conversation_service.CustomModes.Fields.{
  CustomModeCreate, CustomModeUpdate, changes, no_changes,
}
use conversation_service.CustomModes.Repository.{
  CustomModeRecord, CustomModeTable, ExecutionStyle, direct, smart, NewMode, is_current, get_mode,
}
use conversation_service.CustomModes.Repository

abbrev pub max_per_user : ℕ
max_per_user = 20

-- The columns of the record, with the reference to send.
pub record CustomModeResponse : Type 0 where
  pub mode_ref : Text
  pub record_of : CustomModeRecord

unfoldable pub response_of : CustomModeRecord → CustomModeResponse
unfolding custom_ref
response_of r = record { mode_ref = custom_ref r.mode_id; record_of = r }

abbrev pub is_smart : ExecutionStyle → Bool
is_smart smart = true
is_smart direct = false

abbrev pub snapshot_of : CustomModeRecord → CustomModeSnapshot
snapshot_of r = record {
  mode_id = r.mode_id;
  version = r.version;
  name = r.name;
  smart = is_smart r.execution_style;
  instructions = r.instructions;
}

abbrev pub new_mode : Uuid → Time → CustomModeCreate → NewMode
new_mode id now body = record {
  id = id;
  name = body.name;
  description = body.description;
  instructions = body.instructions;
  execution_style = body.execution_style;
  now = now;
}

abbrev pub found : Option CustomModeRecord → Method CustomModeTable CustomModeResponse
unfolding response_of
found none = fail custom_mode_not_found
found (some r) = return (response_of r)

module _ (normalize_name : Text → Text) where
  unfoldable pub create :
      Uuid → Uuid → Time → CustomModeCreate → Method CustomModeTable CustomModeResponse
  unfolding Repository.create response_of
  create owner id now body =
      Repository.create normalize_name max_per_user owner (new_mode id now body) >>= λ r.
      return (response_of r)

  unfoldable pub get : Uuid → Uuid → Method CustomModeTable CustomModeResponse
  unfolding found
  get owner mode_id = get_mode owner mode_id true >>= found

  unfoldable pub update :
      Uuid → Uuid → Time → CustomModeUpdate → Method CustomModeTable CustomModeResponse
  unfolding Repository.update get response_of
  update owner mode_id now body =
      if no_changes (changes body)
      then get owner mode_id
      else Repository.update normalize_name owner mode_id (changes body) body.version now >>= λ r.
          return (response_of r)

  unfoldable pub archive : Uuid → Uuid → Time → Method CustomModeTable CustomModeResponse
  unfolding Repository.archive found
  archive owner mode_id now = Repository.archive owner mode_id now >>= found

-- Owner-scoped, and of active modes only.
abbrev usable : Option CustomModeRecord → Method CustomModeTable CustomModeSnapshot
usable none = fail custom_mode_unavailable
usable (some r) = if is_current r then return (snapshot_of r) else fail custom_mode_unavailable

unfoldable pub snapshot_for_message : Uuid → Uuid → Method CustomModeTable CustomModeSnapshot
snapshot_for_message owner mode_id = get_mode owner mode_id false >>= usable
