-- ===== src/Tests/Fixtures.antt =====
-- A service whose calls all succeed, and states of one conversation.
use conversation_service.Prelude.{
  ℕ, ◌+◌, ◌*◌, true, false, none, some, List, [], ◌∷◌, length, ◌==◌, if◌then◌else◌,
}
use conversation_service.Model.{assistant, sent, Message, Citation, user}
use conversation_service.Strings.{codes}
use conversation_service.State.{
  World, Env, Row, RowStatus, live, ChatMessageCreated, chat_message_created, empty,
}
use conversation_service.Messages.{shown, new_event}
use conversation_service.Citations.{Json, obj, str, int, field, end}
use conversation_service.Errors.{ok}
use conversation_service.MessageService.{Services, none_applied}
use conversation_service.Consumers.{completed_token, failed_token}
use conversation_service.MessageService.Send.{Ids}

abbrev pub source : Json
source = obj (field "file_id" (str (codes "f1")) (field "page_number" (int 3) end))

abbrev pub size : List Citation → ℕ
size cs = 2 + 40 * length cs

-- A service with a Redis client and no call that raises.
abbrev pub calm : Env
calm = record { now = 1000; redis = true; down = λ c. false; json_size = size }

abbrev pub plain : Services
plain = record {
  cache = true;
  preferences = none;
  branch_get = none;
  event_context = λ c. ok ([], []);
}

abbrev pub ids : Ids
ids = record { candidate = λ i. 40 + i; event_id = 90; request_id = 91 }

abbrev pub nothing : World
nothing = record {
  rows = λ c. [];
  outbox = [];
  broker = [];
  inbox = λ e. false;
  marker = λ m. none;
  deadlines = [];
  recent = λ c. none;
  event_log = λ c. [];
  streamed = [];
}

abbrev pub question : Row
question = record {
  message_id = 41;
  sender = user;
  content = codes "Why?";
  created_at = 900;
  status = live sent;
  file_ids = [];
  citations = [];
}

abbrev pub answer : RowStatus → Row
answer status = record {
  message_id = 50;
  sender = assistant;
  content = codes "Because.";
  created_at = 950;
  status = status;
  file_ids = [];
  citations = [];
}

abbrev pub request : ChatMessageCreated
request = record {
  message_id = 41;
  response_message_id = some 50;
  conversation_id = 1;
  user_id = some 7;
  content = codes "Why?";
  mode_hint = none;
  selected_tools = [];
  include_diagrams = false;
  file_ids = [];
  history = [];
  ancestors = [];
  custom_mode = none;
  preferences = none;
  defaults_applied = none_applied;
  metadata = empty;
  timestamp = 900;
}

-- Conversation 1 has a question and the row of its answer, with a marker that has passed its
-- deadline, two events in the log, a timeout and then the answer, and one request in the outbox.
abbrev pub busy : RowStatus → World
busy status = record {
  rows = λ c. if c == 1 then answer status ∷ question ∷ [] else [];
  outbox = new_event 1 90 chat_message_created request 900 ∷ [];
  broker = [];
  inbox = λ e. false;
  marker = λ m. if m == 50 then some (record { conversation_id = 1; expires_at = 5000 }) else none;
  deadlines = (50, 1500) ∷ [];
  recent = λ c. none;
  event_log =
      λ c. failed_token 1 50 (codes "Late.") ∷ completed_token 1 50 (codes "Because.") [] ∷ [];
  streamed = [];
}

abbrev pub talk : List Message
talk = shown calm 1 (answer (live sent) ∷ question ∷ [])
