-- ===== src/MessageService.antt =====
-- app/services/message_service.py, with the Redis side of app/services/cache_service.py that it
-- uses. Expiry of the cached lists is not modelled.
pub mod Format
pub mod Pending
pub mod Send
pub mod Finish
pub mod Reads
pub mod Staging
pub mod Accept
pub mod Regenerate
pub mod Returns
use conversation_service.Prelude.{
  ℕ, ◌+◌, ◌-◌, ◌*◌, Bool, true, false, not, ◌&&◌, ◌||◌, Option, none, some, List, [], ◌∷◌, ◌++◌,
  ltb, leb, ◌==◌, if◌then◌else◌, is_some, length, keep, take, drop,
}
use mathlib.Core.List.{reverse, map}
use conversation_service.Model.{
  Uuid, Time, Text, Sender, user, assistant, system, MessageStatus, pending, sent, failed, is_sent,
  is_assistant, is_user, Message, Citation, Conversation,
}
use conversation_service.Text.{strip, clip, is_empty}
use conversation_service.State.{
  Row, chat_message_created, HistoryEntry, Inherited, AncestorRef, CustomModeSnapshot, Generation,
  Defaults, Metadata, empty, regeneration, ChatMessageCreated, Marker, World, cache_get,
  cache_clear, cache_push, cache_evict, marker_set, marker_zadd, marker_delete, marker_zrem, Env,
}
use conversation_service.Citations.{arr, sanitize_citations, to_items}
use conversation_service.Errors.{
  Result, ok, raised, Error, pending_registration, Method, ◌>>=◌, ◌>>◌, return, fail, except,
}
use conversation_service.Messages
use conversation_service.Helpers.{uuidv7_after}

abbrev pub history_event_max_messages : ℕ
history_event_max_messages = 10

abbrev pub history_event_max_message_chars : ℕ
history_event_max_message_chars = 2000

abbrev pub history_event_max_chars : ℕ
history_event_max_chars = 8000

abbrev pub cache_history_limit : ℕ
cache_history_limit = 50

-- PENDING_RESPONSE_TIMEOUT_SECONDS and PENDING_RESPONSE_MARKER_GRACE_SECONDS, in microseconds
abbrev pub pending_timeout : Time
pending_timeout = 120000000

abbrev pub marker_grace : Time
marker_grace = 300000000

abbrev from_user_or_assistant : Sender → Bool
from_user_or_assistant s = is_user s || is_assistant s

-- What `_format_history` keeps: finished user or assistant text.
abbrev pub usable : Message → Bool
usable m = from_user_or_assistant m.sender && is_sent m.status && not (is_empty (strip m.content))

abbrev pub own_entry : Message → HistoryEntry
own_entry m = record {
  role = m.sender;
  content = clip history_event_max_message_chars m.content;
  message_id = some m.message_id;
  source_conversation_id = none;
}

-- The loop of `_format_history`. The budget cannot fall below 0: only the first text may pass it,
-- and that one is shorter than the whole budget.
unfoldable pub format_from : List HistoryEntry → ℕ → List Message → List HistoryEntry
format_from picked budget [] = picked
format_from picked budget (m ∷ ms) =
    let n = length (own_entry m).content in
    let skip = format_from picked budget ms in
    let more = format_from (picked ++ own_entry m ∷ []) (budget - n) ms in
    if not (usable m)
    then skip
    else if ltb budget n && leb 1 (length picked)
    then picked
    else if leb history_event_max_messages (length picked + 1)
    then picked ++ own_entry m ∷ []
    else more

unfoldable pub format_history : List Message → List HistoryEntry
unfolding format_from
format_history messages_newest_first =
    reverse (format_from [] history_event_max_chars messages_newest_first)

-- `ResolvedMessagePreferences`
pub record Resolved : Type 0 where
  pub mode : Option Text
  pub selected_tools : Option (List Text)
  pub defaults_applied : Defaults
  pub generation : Option Generation
  pub custom_mode : Option CustomModeSnapshot

-- The services that are handed to `MessageService`; each is optional.
pub record Services : Type 0 where
  pub cache : Bool
  pub preferences : Option (Option Uuid → Option Text → Option (List Text) → Result Resolved)
  pub branch_get : Option (Uuid → Result (Option Conversation))
  pub event_context : Conversation → Result (List Inherited × List AncestorRef)

abbrev pub none_applied : Defaults
none_applied = record { mode = false; tools = false }

abbrev pub resolve_preferences :
    Services → Option Uuid → Option Text → Option (List Text) → Result Resolved
resolve_preferences svc user_id mode tools = elim svc.preferences [
  | none ↦ ok (record {
    mode = mode;
    selected_tools = tools;
    defaults_applied = none_applied;
    generation = none;
    custom_mode = none;
  })
  | some resolve ↦ resolve user_id mode tools
]

abbrev pub or_nil {ℓ} : {A : Type ℓ} → Option (List A) → List A
or_nil none = []
or_nil (some xs) = xs

module _ (env : Env) (svc : Services) where
  -- A cache call that raises is caught and logged.
  abbrev pub cache_on : Bool
  cache_on = svc.cache && env.redis

  -- `CacheService.delete_last_50_messages`, through `_invalidate_cache`
  unfoldable pub invalidate_cache : Uuid → Method World (Unit {0})
  invalidate_cache cid w =
      if cache_on && not (env.down cache_evict)
      then return tt (record w { recent = λ c. if c == cid then none else w.recent c })
      else return tt w

  -- A cached item is read with its citations sanitized again.
  abbrev from_cache : Message → Message
  from_cache m = record m {
    citations = sanitize_citations env.json_size (arr (to_items m.citations));
    response_message_id = none;
  }

  abbrev lrange : ℕ → List Message → List Message
  lrange limit ms = if limit == 0 then ms else take limit ms

  -- `if cached_items:` takes an empty list for a miss.
  abbrev cached_page : ℕ → Option (List Message) → Option (List Message)
  cached_page limit none = none
  cached_page limit (some ms) = elim (map from_cache (lrange limit ms)) [
    | [] ↦ none
    | m ∷ rest ↦ some (m ∷ rest)
  ]

  unfoldable pub get_last_50_messages : Uuid → ℕ → World → Option (List Message)
  get_last_50_messages cid limit w =
      if cache_on && not (env.down cache_get) then cached_page limit (w.recent cid) else none

  abbrev set_recent : Uuid → Option (List Message) → World → World
  set_recent cid ms w = record w { recent = λ c. if c == cid then ms else w.recent c }

  -- The old list is deleted before the new one is pushed.
  unfoldable pub set_last_50_messages : Uuid → List Message → World → World
  set_last_50_messages cid [] w = w
  set_last_50_messages cid (m ∷ ms) w =
      if not cache_on || env.down cache_clear
      then w
      else if env.down cache_push
      then set_recent cid none w
      else set_recent cid (some (m ∷ ms)) w

  unfoldable pub history : Uuid → ℕ → Option Uuid → Method World (List Message)
  unfolding get_last_50_messages set_last_50_messages Messages.history
  history cid limit (some cursor) w = Messages.history env cid limit (some cursor) w
  history cid limit none w = elim (get_last_50_messages cid limit w) [
    | some messages ↦ return messages w
    | none ↦
        (do
          messages ← Messages.history env cid limit none
          λ v. return messages (set_last_50_messages cid messages v))
          w
  ]

  -- An exception of the read gives no history, and leaves the send alone.
  unfoldable pub recent_history : Uuid → Method World (List HistoryEntry)
  unfolding history format_history
  recent_history cid w =
      except
        ((do
          messages ← history cid (history_event_max_messages * 2) none
          return (format_history messages))
          w)
        (λ e. return [])
