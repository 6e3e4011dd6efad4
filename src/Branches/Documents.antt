-- ===== src/Branches/Documents.antt =====
-- `context` of app/services/branch_context_service.py: the documents that a branch inherits.
use conversation_service.Prelude.{
  ◌≤◌, ◌≡◌, refl, sym, subst, ap, ◌∙◌, Bool, true, false, ◌||◌, Option, List, [], ◌∷◌, ◌++◌, arith,
  leb, Bool-cases, ◌==◌, ==_iff, inl, inr, if◌then◌else◌, length, contains, contains-append, Unique,
  get_or, length-append,
}
use mathlib.Core.List.{reverse, map}
use conversation_service.Prelude.Dict
use conversation_service.Prelude.Dict.{Dict}
use conversation_service.Model.{Uuid, Text, Message, Conversation, is_user}
use conversation_service.Errors.{Result, ok, raised}
use conversation_service.Branches.{
  Reads, Segment, Lineage, Truncation, max_inherited_documents, scan_per_segment, segment_messages,
  lineage,
}
use conversation_service.Branches.Chain.{Result-cases}

pub record Document : Type 0 where
  pub document_id : Uuid
  pub source_conversation_id : Uuid
  pub source_title : Text
  pub source_message_id : Uuid

pub record Collected : Type 0 where
  pub documents : List Document
  pub seen : List Uuid

pub record BranchContext : Type 0 where
  pub conversation_id : Uuid
  pub branch_message_id : Option Uuid
  pub segments : List Segment
  pub truncated : Option Truncation
  pub documents : List Document

-- `{s.conversation_id: s.title for s in segments}`
abbrev titles : List Segment → Dict Text → Dict Text
titles [] d = d
titles (s ∷ segments) d = titles segments (Dict.put d s.conversation_id s.title)

unfoldable pub add_document : Segment → Text → Message → Uuid → Collected → Collected
add_document seg title m fid c =
    if contains fid c.seen || leb max_inherited_documents (length c.documents) then c else record {
      documents =
          c.documents
          ++ record {
            document_id = fid;
            source_conversation_id = seg.conversation_id;
            source_title = title;
            source_message_id = m.message_id;
          }
            ∷ [];
      seen = fid ∷ c.seen;
    }

unfoldable pub add_files : Segment → Text → Message → List Uuid → Collected → Collected
unfolding add_document
add_files seg title m [] c = c
add_files seg title m (fid ∷ fids) c = add_files seg title m fids (add_document seg title m fid c)

unfoldable pub add_messages : Segment → Text → List Message → Collected → Collected
unfolding add_files
add_messages seg title [] c = c
add_messages seg title (m ∷ ms) c =
    let skipped = add_messages seg title ms c in
    let taken = add_messages seg title ms (add_files seg title m m.file_ids c) in
    if is_user m.sender then taken else skipped

module _ (reads : Reads) where
  unfoldable pub add_segments : Dict Text → List Segment → Collected → Result Collected
  unfolding add_messages
  add_segments names [] c = ok c
  add_segments names (seg ∷ segments) c = elim (segment_messages reads seg scan_per_segment) [
    | raised e ↦ raised e
    | ok ms ↦
        add_segments names segments
          (add_messages seg (get_or (Dict.get names seg.conversation_id) []) (reverse ms) c)
  ]

  abbrev collected : Conversation → Lineage → Result Collected → Result BranchContext
  collected conv l (raised e) = raised e
  collected conv l (ok c) = ok (record {
    conversation_id = conv.conversation_id;
    branch_message_id = conv.branch_message_id;
    segments = l.segments;
    truncated = l.truncated;
    documents = c.documents;
  })

  abbrev nothing : Collected
  nothing = record { documents = []; seen = [] }

  unfoldable pub context : Conversation → Result BranchContext
  unfolding add_segments
  context conv = elim (lineage reads conv) [
    | raised e ↦ raised e
    | ok l ↦ collected conv l (add_segments (titles l.segments []) l.segments nothing)
  ]

abbrev document_ids : List Document → List Uuid
document_ids ds = map (λ d. d.document_id) ds

-- What has been collected so far.
record Few (c : Collected) : Type 0 where
  count : length c.documents ≤ max_inherited_documents
  met : (k : Uuid) → contains k c.seen ≡ contains k (document_ids c.documents)
  distinct : Unique (document_ids c.documents)

Unique-append :
    (xs : List Uuid) (y : Uuid) → Unique xs → contains y xs ≡ false → Unique (xs ++ y ∷ [])
Unique-append [] y u h = (refl, tt)
Unique-append (x ∷ xs) y u h = (
  contains-append x xs (y ∷ []) ∙ ground (arith, u.0, h, ==_iff x y, ==_iff y x),
  Unique-append xs y u.1 (ground (arith, h)),
)

document_ids-append :
    (ds : List Document) (d : Document)
    → document_ids (ds ++ d ∷ []) ≡ document_ids ds ++ d.document_id ∷ []
document_ids-append [] d = refl
document_ids-append (e ∷ ds) d = ap (◌∷◌ e.document_id) (document_ids-append ds d)

add_document-Few :
    (seg : Segment) (title : Text) (m : Message) (fid : Uuid) (c : Collected)
    → Few c
    → Few (add_document seg title m fid c)
unfolding add_document
add_document-Few seg title m fid c few =
    elim (Bool-cases (contains fid c.seen || leb max_inherited_documents (length c.documents))) [
      | inl y ↦ rw y few
      | inr n ↦
          let d : Document = record {
            document_id = fid;
            source_conversation_id = seg.conversation_id;
            source_title = title;
            source_message_id = m.message_id;
          } in
          let new : contains fid (document_ids c.documents) ≡ false =
            sym (few.met fid) ∙ ground (arith, n) in
          rw n (record {
            count = ground (arith, n, few.count, length-append c.documents (d ∷ []));
            met = λ k.
                ap (λ b. (fid == k) || b) (few.met k)
                ∙ (swap (fid == k) (contains k (document_ids c.documents))
                    ∙ sym (
                        ap (contains k) (document_ids-append c.documents d)
                        ∙ contains-append k (document_ids c.documents) (fid ∷ [])));
            distinct =
                subst Unique (sym (document_ids-append c.documents d))
                  (Unique-append (document_ids c.documents) fid few.distinct new);
          })
    ]
  where
    swap : (a b : Bool) → (a || b) ≡ (b || (a || false))
    swap true true = refl
    swap true false = refl
    swap false true = refl
    swap false false = refl

add_files-Few :
    (seg : Segment) (title : Text) (m : Message) (fids : List Uuid) (c : Collected)
    → Few c
    → Few (add_files seg title m fids c)
unfolding add_files
add_files-Few seg title m [] c few = few
add_files-Few seg title m (fid ∷ fids) c few =
    add_files-Few seg title m fids (add_document seg title m fid c)
      (add_document-Few seg title m fid c few)

add_messages-Few :
    (seg : Segment) (title : Text) (ms : List Message) (c : Collected)
    → Few c
    → Few (add_messages seg title ms c)
unfolding add_messages
add_messages-Few seg title [] c few = few
add_messages-Few seg title (m ∷ ms) c few = elim (Bool-cases (is_user m.sender)) [
  | inl y ↦ rw y (
      add_messages-Few seg title ms (add_files seg title m m.file_ids c)
        (add_files-Few seg title m m.file_ids c few))
  | inr n ↦ rw n (add_messages-Few seg title ms c few)
]

abbrev pub Bounded : Result BranchContext → Type 0
Bounded (raised e) = Unit
Bounded (ok b) = (length b.documents ≤ max_inherited_documents) × Unique (document_ids b.documents)

module _ (reads : Reads) where
  add_segments-Bounded :
      (conv : Conversation) (l : Lineage) (names : Dict Text) (segments : List Segment)
      (c : Collected)
      → Few c
      → Bounded (collected reads conv l (add_segments reads names segments c))
  unfolding add_segments
  add_segments-Bounded conv l names [] c few = (few.count, few.distinct)
  add_segments-Bounded conv l names (seg ∷ segments) c few =
      elim (Result-cases (segment_messages reads seg scan_per_segment)) [
        | inr (e, got) ↦ rw (got, add_segments) tt
        | inl (ms, got) ↦
            rw (got, add_segments)
              (add_segments-Bounded conv l names segments _ (
                add_messages-Few seg (get_or (Dict.get names seg.conversation_id) []) (reverse ms) c
                  few))
      ]

  -- The context of a branch, when its reads succeed, lists at most 50 documents, and none twice.
  pub context-Bounded : (conv : Conversation) → Bounded (context reads conv)
  unfolding context
  context-Bounded conv = elim (Result-cases (lineage reads conv)) [
    | inr (e, got) ↦ rw (got, context) tt
    | inl (l, got) ↦
        rw (got, context)
          (add_segments-Bounded conv l (titles l.segments []) l.segments (nothing reads)
            (record { count = omega arith; met = λ k. refl; distinct = tt }))
  ]
