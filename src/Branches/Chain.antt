-- ===== src/Branches/Chain.antt =====
-- The lineage of a branch: its links, its owner, its end and its length.
use conversation_service.Prelude.{
  ℕ, zero, suc, ◌≤◌, ◌≡◌, refl, sym, subst, ap, ◌∙◌, false, Option, none, some, List, [], ◌∷◌,
  arith, ◌==◌, ==_iff, Bool-cases, Option-cases, inl, inr, ◌⊎◌, length, contains,
}
use mathlib.Core.List.{reverse, reverse-reverse}
use conversation_service.Model.{Uuid, Conversation, is_deleted}
use conversation_service.Errors.{Error, Result, ok, raised}
use conversation_service.Branches.{
  Reads, Segment, Truncation, max_depth, cycle, missing_ancestor, inaccessible_ancestor,
  deleted_ancestor, Lineage, accepted, ancestors, above, segment_of, root_first, lineage,
  max_lineage_depth,
}

-- A walk to the parents, nearest first: each parent was read, was not met before, is the owner's and
-- is not deleted, and its segment ends where its child branched. It ends at a conversation without
-- a parent, or early for a reason.
pub data Chain (reads : Reads) (owner : Uuid)
    : List Uuid → Conversation → List Segment → Option Truncation → Type 0 where
  root :
      {seen : List Uuid} {cur : Conversation}
      → cur.parent_conversation_id ≡ none
      → Chain reads owner seen cur [] none
  cut :
      {seen : List Uuid} {cur : Conversation} (pid : Uuid) (reason : Truncation)
      → cur.parent_conversation_id ≡ some pid
      → Chain reads owner seen cur [] (some reason)
  up :
      {seen : List Uuid} {cur : Conversation} (parent : Conversation) (pid : Uuid)
      {segments : List Segment} {truncated : Option Truncation}
      → cur.parent_conversation_id ≡ some pid
      → contains pid seen ≡ false
      → reads.get pid ≡ ok (some parent)
      → parent.user_id ≡ owner
      → is_deleted parent.status ≡ false
      → Chain reads owner (pid ∷ seen) parent segments truncated
      → Chain reads owner seen cur (segment_of cur parent pid ∷ segments) truncated

-- What the loop returns, when it returns.
Walked :
    Reads → ℕ → Uuid → List Uuid → Conversation → Result (List Segment × Option Truncation) → Type 0
Walked reads n owner seen cur (raised e) = Unit
Walked reads n owner seen cur (ok (segments, truncated)) =
    Chain reads owner seen cur segments truncated × (length segments ≤ n)

pub Result-cases :
    {A : Type 0} (r : Result A) → ((a : A) × (r ≡ ok a)) ⊎ ((e : Error) × (r ≡ raised e))
Result-cases (ok a) = inl (a, refl)
Result-cases (raised e) = inr (e, refl)

Sum-cases : {A B : Type 0} (o : A ⊎ B) → ((a : A) × (o ≡ inl a)) ⊎ ((b : B) × (o ≡ inr b))
Sum-cases (inl a) = inl (a, refl)
Sum-cases (inr b) = inr (b, refl)

stopped :
    (reason : Truncation) (parent : Conversation) {o : Truncation ⊎ Conversation}
    → o ≡ inl reason
    → o ≡ inr parent
    → ⊥
stopped reason parent p q = cc

accepted_one :
    (c parent : Conversation) {o : Truncation ⊎ Conversation}
    → o ≡ inr c
    → o ≡ inr parent
    → c ≡ parent
accepted_one c parent p q = cc

module _ (reads : Reads) where
  accepted_own :
      (owner : Uuid) (found : Option Conversation) (parent : Conversation)
      → accepted reads owner found ≡ inr parent
      → (found ≡ some parent) × (parent.user_id ≡ owner) × (is_deleted parent.status ≡ false)
  accepted_own owner none parent e = absurd (stopped missing_ancestor parent refl e)
  accepted_own owner (some c) parent e = elim (Bool-cases (c.user_id == owner)) [
    | inr n ↦ absurd (stopped inaccessible_ancestor parent (rw n refl) e)
    | inl y ↦ elim (Bool-cases (is_deleted c.status)) [
      | inl d ↦ absurd (stopped deleted_ancestor parent (rw (y, d) refl) e)
      | inr d ↦
          let same : c ≡ parent = accepted_one c parent (rw (y, d) refl) e in
          subst
            (λ k.
              (◌≡◌ {A = Option Conversation} (some c) (some k))
              × (k.user_id ≡ owner)
              × (is_deleted k.status ≡ false))
            same (refl, (==_iff c.user_id owner).0 y, d)
    ]
  ]

  above-Walked :
      (n : ℕ) (owner : Uuid) (seen : List Uuid) (cur parent : Conversation) (pid : Uuid)
      (r : Result (List Segment × Option Truncation))
      → cur.parent_conversation_id ≡ some pid
      → contains pid seen ≡ false
      → reads.get pid ≡ ok (some parent)
      → parent.user_id ≡ owner
      → is_deleted parent.status ≡ false
      → Walked reads n owner (pid ∷ seen) parent r
      → Walked reads (suc n) owner seen cur (above (segment_of cur parent pid) r)
  unfolding Walked
  above-Walked n owner seen cur parent pid (raised e) p c g o d w = tt
  above-Walked n owner seen cur parent pid (ok (segments, truncated)) p c g o d w =
      (up parent pid p c g o d w.0, omega (arith, w.1))

  -- One round, by what it meets.
  Walked-eq :
      (n : ℕ) (owner : Uuid) (seen : List Uuid) (cur : Conversation)
      {x y : Result (List Segment × Option Truncation)}
      → x ≡ y
      → Walked reads n owner seen cur y
      → Walked reads n owner seen cur x
  Walked-eq n owner seen cur e w = subst (Walked reads n owner seen cur) (sym e) w

  ancestors-Walked :
      (n : ℕ) (owner : Uuid) (seen : List Uuid) (cur : Conversation)
      → Walked reads n owner seen cur (ancestors reads n owner seen cur)
  unfolding ancestors Walked
  ancestors-Walked zero owner seen cur = elim (Option-cases cur.parent_conversation_id) [
    | inl e ↦
        Walked-eq zero owner seen cur {y = ok ([], none)} (rw (e, ancestors) refl)
          (root e, omega arith)
    | inr (pid, e) ↦
        Walked-eq zero owner seen cur {y = ok ([], some max_depth)} (rw (e, ancestors) refl)
          (cut pid max_depth e, omega arith)
  ]
  ancestors-Walked (suc n) owner seen cur = elim (Option-cases cur.parent_conversation_id) [
    | inl e ↦
        Walked-eq (suc n) owner seen cur {y = ok ([], none)} (rw (e, ancestors) refl)
          (root e, omega arith)
    | inr (pid, e) ↦ elim (Bool-cases (contains pid seen)) [
      | inl met ↦
          Walked-eq (suc n) owner seen cur {y = ok ([], some cycle)} (rw (e, met, ancestors) refl)
            (cut pid cycle e, omega arith)
      | inr new ↦ elim (Result-cases (reads.get pid)) [
        | inr (f, got) ↦
            Walked-eq (suc n) owner seen cur {y = raised f} (rw (e, new, got, ancestors) refl) tt
        | inl (found, got) ↦ elim (Sum-cases (accepted reads owner found)) [
          | inl (reason, no_one) ↦
              Walked-eq (suc n) owner seen cur {y = ok ([], some reason)}
                (rw (e, new, got, no_one, ancestors) refl) (cut pid reason e, omega arith)
          | inr (parent, taken) ↦
              let (here, own, kept) = accepted_own owner found parent taken in
              Walked-eq (suc n) owner seen cur
                {y = above (segment_of cur parent pid)
                  (ancestors reads n owner (pid ∷ seen) parent)}
                (rw (e, new, got, taken, ancestors) refl)
                (above-Walked n owner seen cur parent pid
                  (ancestors reads n owner (pid ∷ seen) parent) e new (got ∙ ap ok here) own kept
                  (ancestors-Walked n owner (pid ∷ seen) parent))
        ]
      ]
    ]
  ]

  -- A lineage that is returned: read from the direct parent up, its segments are a chain of
  -- conversations that were read, each the parent of the one before, none met twice nor the branch
  -- itself, all of the branch's owner and not deleted, each cut where its child branched; it ends at
  -- a conversation without a parent exactly when it is not marked as truncated; and there are at most
  -- 25.
  pub lineage-Chain :
      (conv : Conversation) (l : Lineage)
      → lineage reads conv ≡ ok l
      → Chain reads conv.user_id (conv.conversation_id ∷ []) conv (reverse l.segments) l.truncated
        × (length (reverse l.segments) ≤ max_lineage_depth)
  unfolding lineage Walked
  lineage-Chain conv l e =
      by_result (ancestors reads max_lineage_depth conv.user_id (conv.conversation_id ∷ []) conv)
        (ancestors-Walked max_lineage_depth conv.user_id (conv.conversation_id ∷ []) conv) e
    where
      ok_same : (k : Lineage) → ◌≡◌ {A = Result Lineage} (ok k) (ok l) → k ≡ l
      ok_same k e = cc

      by_result :
          (r : Result (List Segment × Option Truncation))
          → Walked reads max_lineage_depth conv.user_id (conv.conversation_id ∷ []) conv r
          → root_first reads r ≡ ok l
          → Chain reads conv.user_id
              (conv.conversation_id ∷ [])
              conv
              (reverse l.segments)
              l.truncated
            × (length (reverse l.segments) ≤ max_lineage_depth)
      by_result (raised f) w e = cc
      by_result (ok (segments, truncated)) w e =
          let same = ok_same (record { segments = reverse segments; truncated = truncated }) e in
          let back : segments ≡ reverse l.segments =
            sym (reverse-reverse segments) ∙ ap (λ k. reverse k.segments) same in
          subst
            (λ k.
              Chain reads conv.user_id (conv.conversation_id ∷ []) conv k l.truncated
              × (length k ≤ max_lineage_depth))
            back
            (
              subst (λ t. Chain reads conv.user_id (conv.conversation_id ∷ []) conv segments t)
                  (ap (λ k. k.truncated) same) w.0,
              w.1,
            )
