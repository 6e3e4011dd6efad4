-- ===== src/Branches.antt =====
-- app/services/branch_context_service.py: the ancestors of a branch, and what it inherits of their
-- messages. The conversation service and the message repository are handed in as `Reads`, the rows
-- newest first; during one call they answer the same question alike.
pub mod Chain
pub mod Inherit
pub mod Documents
use conversation_service.Prelude.{
  ℕ, zero, suc, ◌-◌, ◌*◌, Bool, true, false, not, ◌&&◌, ◌||◌, Option, none, some, List, [], ◌∷◌,
  ◌++◌, ltb, leb, ◌==◌, if◌then◌else◌, keep, take, length, contains, is_some, ◌⊎◌, inl, inr,
}
use mathlib.Core.List.{reverse, map}
use conversation_service.Model.{
  Uuid, Time, Text, Conversation, is_deleted, Message, Sender, user, assistant, is_user,
  is_assistant, is_sent,
}
use conversation_service.Text.{strip, clip, is_empty}
use conversation_service.State.{Inherited, AncestorRef}
use conversation_service.Errors.{Error, Result, ok, raised}

abbrev pub max_lineage_depth : ℕ
max_lineage_depth = 25

abbrev pub inherited_max_messages : ℕ
inherited_max_messages = 16

abbrev pub inherited_max_message_chars : ℕ
inherited_max_message_chars = 2000

abbrev pub inherited_max_chars : ℕ
inherited_max_chars = 12000

abbrev pub scan_per_segment : ℕ
scan_per_segment = 200

abbrev pub max_inherited_documents : ℕ
max_inherited_documents = 50

pub record Reads : Type 0 where
  pub get : Uuid → Result (Option Conversation)
  pub history : Uuid → ℕ → Result (List Message)
  pub history_upto : Uuid → Uuid → ℕ → Result (List Message)

pub record Segment : Type 0 where
  pub conversation_id : Uuid
  pub title : Text
  pub upto_message_id : Option Uuid
  pub upto_time : Option Time

pub data Truncation : Type 0 where
  max_depth cycle missing_ancestor inaccessible_ancestor deleted_ancestor : Truncation

pub record Lineage : Type 0 where
  pub segments : List Segment  -- root first
  pub truncated : Option Truncation

abbrev pub is_usable : Message → Bool
is_usable m =
    (is_user m.sender || is_assistant m.sender)
    && is_sent m.status
    && not (is_empty (strip m.content))

abbrev pub segment_of : Conversation → Conversation → Uuid → Segment
segment_of cur parent pid = record {
  conversation_id = pid;
  title = parent.title;
  upto_message_id = cur.branch_message_id;
  upto_time = if is_some cur.branch_message_id then none else some cur.created_at;
}

abbrev pub above :
    Segment → Result (List Segment × Option Truncation) → Result (List Segment × Option Truncation)
above s (raised e) = raised e
above s (ok (segments, truncated)) = ok (s ∷ segments, truncated)

module _ (reads : Reads) where
  -- The parent that was read, or why the chain stops.
  abbrev pub accepted : Uuid → Option Conversation → Truncation ⊎ Conversation
  accepted owner none = inl missing_ancestor
  accepted owner (some parent) =
      if not (parent.user_id == owner)
      then inl inaccessible_ancestor
      else if is_deleted parent.status
      then inl deleted_ancestor
      else inr parent

  -- The loop of `lineage`, nearest ancestor first; `n` ancestors may still be added.
  unfoldable pub ancestors :
      ℕ → Uuid → List Uuid → Conversation → Result (List Segment × Option Truncation)
  ancestors zero owner seen cur = elim cur.parent_conversation_id [
    | none ↦ ok ([], none)
    | some pid ↦ ok ([], some max_depth)
  ]
  ancestors (suc n) owner seen cur = elim cur.parent_conversation_id [
    | none ↦ ok ([], none)
    | some pid ↦ if contains pid seen then ok ([], some cycle) else elim (reads.get pid) [
      | raised e ↦ raised e
      | ok found ↦ elim (accepted owner found) [
        | inl reason ↦ ok ([], some reason)
        | inr parent ↦ above (segment_of cur parent pid) (ancestors n owner (pid ∷ seen) parent)
      ]
    ]
  ]

  abbrev pub root_first : Result (List Segment × Option Truncation) → Result Lineage
  root_first (raised e) = raised e
  root_first (ok (segments, truncated)) =
      ok (record { segments = reverse segments; truncated = truncated })

  unfoldable pub lineage : Conversation → Result Lineage
  unfolding ancestors
  lineage conv =
      root_first (ancestors max_lineage_depth conv.user_id (conv.conversation_id ∷ []) conv)

  abbrev upto : Option Time → Message → Bool
  upto none m = true
  upto (some time) m = leb m.created_at time

  abbrev kept : (Message → Bool) → Result (List Message) → Result (List Message)
  kept p (raised e) = raised e
  kept p (ok rows) = ok (keep p rows)

  unfoldable pub segment_messages : Segment → ℕ → Result (List Message)
  segment_messages seg limit = elim seg.upto_message_id [
    | some boundary ↦ kept is_usable (reads.history_upto seg.conversation_id boundary limit)
    | none ↦
        kept (λ m. upto seg.upto_time m && is_usable m) (reads.history seg.conversation_id limit)
  ]

  abbrev ref_of : Segment → List AncestorRef
  ref_of s = elim s.upto_message_id [
    | none ↦ []
    | some m ↦ record { conversation_id = s.conversation_id; upto_message_id = m } ∷ []
  ]

  unfoldable pub ancestor_refs : List Segment → List AncestorRef
  ancestor_refs [] = []
  ancestor_refs (s ∷ segments) = ref_of s ++ ancestor_refs segments

-- What `inherited_history` has picked so far, oldest first, with the characters that are left.
pub record Picked : Type 0 where
  pub messages : List Message
  pub chars : ℕ
  pub seen : List Uuid

abbrev pub text_of : Message → Text
text_of m = clip inherited_max_message_chars m.content

-- A message does not fit: there are enough, or it takes too many characters and is not the first.
abbrev pub overflows : Message → Picked → Bool
overflows m p =
    leb inherited_max_messages (length p.messages)
    || (not (length p.messages == 0) && ltb p.chars (length (text_of m)))

abbrev pub add : Message → Picked → Picked
add m p = record {
  messages = m ∷ p.messages;
  chars = p.chars - length (text_of m);
  seen = m.message_id ∷ p.seen;
}

-- The loop over one segment; `true`: full.
unfoldable pub pick : List Message → Picked → Bool × Picked
pick [] p = (false, p)
pick (m ∷ ms) p =
    let skipped = pick ms p in
    let taken = pick ms (add m p) in
    if contains m.message_id p.seen then skipped else if overflows m p then (true, p) else taken

module _ (reads : Reads) where
  -- The loop over the segments, nearest first.
  unfoldable pub pick_segments : List Segment → Picked → Result Picked
  unfolding pick segment_messages
  pick_segments [] p = ok p
  pick_segments (seg ∷ segments) p =
      elim (segment_messages reads seg (inherited_max_messages * 2)) [
        | raised e ↦ raised e
        | ok ms ↦
            let (full, q) = pick ms p in
            let rest = pick_segments segments q in if full then ok q else rest
      ]

  abbrev pub inherited : Message → Inherited
  inherited m = record {
    role = m.sender;
    content = text_of m;
    conversation_id = m.conversation_id;
    message_id = m.message_id;
  }

  abbrev pub none_picked : Picked
  none_picked = record { messages = []; chars = inherited_max_chars; seen = [] }

  -- An exception is logged, and nothing is inherited.
  abbrev pub or_nothing : Result Picked → List Inherited
  or_nothing (raised e) = []
  or_nothing (ok p) = map inherited p.messages

  unfoldable pub inherited_history : Lineage → List Inherited
  unfolding pick_segments
  inherited_history l = or_nothing (pick_segments (reverse l.segments) none_picked)

  unfoldable pub event_context : Conversation → List Inherited × List AncestorRef
  unfolding lineage inherited_history ancestor_refs
  event_context conv = elim (lineage reads conv) [
    | raised e ↦ ([], [])
    | ok l ↦ (inherited_history l, ancestor_refs reads l.segments)
  ]
