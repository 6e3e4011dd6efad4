-- ===== src/MessageService/Reads.antt =====
-- The rows of the state, and the reads that leave them alone: the history and its cache.
use conversation_service.Prelude.{
  ℕ, ◌≡◌, refl, sym, subst, ◌∙◌, false, not, ◌&&◌, Option, none, some, List, [], ◌∷◌, arith, ◌==◌,
  ==_refl, Option-cases, inl, inr,
}
use conversation_service.Model.{Uuid, assistant, pending, Message}
use conversation_service.State.{Row, live, deleted, World, cache_evict, Env}
use conversation_service.Errors.Ensures.{Ensures, Ensures-continue, Ensures-except, Ensures-if}
use conversation_service.Messages
use conversation_service.Messages.{mark_deleted, insert_direct, insert_sent, row_or_blank, write}
use conversation_service.Messages.Effects.{history-Ensures}
use conversation_service.Messages.Table.{find, upsert, find-upsert}
use conversation_service.MessageService.{
  Services, cache_on, invalidate_cache, history, recent_history, get_last_50_messages,
  set_last_50_messages,
}

-- The row of a message.
abbrev pub row : World → Uuid → Uuid → Option Row
row w cid m = find m (w.rows cid)

-- No row changed but that of the message `m`.
abbrev pub OnlyRow : Uuid → Uuid → World → World → Type 0
OnlyRow cid m w v = (c j : Uuid) → (c == cid) && (m == j) ≡ false → row v c j ≡ row w c j

module _ (cid m : Uuid) (f : Option Row → Row) (w : World) where
  pub row-write :
      ((o : Option Row) → (f o).message_id ≡ m)
      → row (write cid (upsert m f) w) cid m ≡ some (f (row w cid m))
  row-write ids = rw (==_refl cid) (find-upsert m m f (w.rows cid) ids ∙ rw (==_refl m))

  pub row-write-OnlyRow :
      ((o : Option Row) → (f o).message_id ≡ m) → OnlyRow cid m w (write cid (upsert m f) w)
  row-write-OnlyRow ids c j ne = let put = find-upsert m j f (w.rows c) ids in ground arith

-- The tables and the markers are those of `w`.
pub record SameTables (w v : World) : Type 0 where
  pub rows : v.rows ≡ w.rows
  pub outbox : v.outbox ≡ w.outbox
  pub marker : v.marker ≡ w.marker
  pub streamed : v.streamed ≡ w.streamed
  pub inbox : v.inbox ≡ w.inbox

-- The row of a compensated placeholder: not there, or soft-deleted.
abbrev pub Hidden : Option Row → Type 0
Hidden none = Unit
Hidden (some r) = r.status ≡ deleted

-- The row of an open placeholder.
abbrev pub IsOpen : Option Row → Type 0
IsOpen none = ⊥
IsOpen (some r) = (r.status ≡ live pending) × (r.sender ≡ assistant) × (r.content ≡ [])

abbrev pub same : (w : World) → SameTables w w
same w = record { rows = refl; outbox = refl; marker = refl; streamed = refl; inbox = refl }

module _ (env : Env) (svc : Services) where
  set_last-SameTables :
      (cid : Uuid) (ms : List Message) (w : World)
      → SameTables w (set_last_50_messages env svc cid ms w)
  unfolding set_last_50_messages
  set_last-SameTables cid [] w = ground arith
  set_last-SameTables cid (m ∷ ms) w = ground arith

  history-SameTables :
      (cid : Uuid) (limit : ℕ) (w : World)
      → Ensures (λ ms v. SameTables w v) (λ e v. SameTables w v) (history env svc cid limit none w)
  unfolding history Messages.history
  history-SameTables cid limit w = elim (Option-cases (get_last_50_messages env svc cid limit w)) [
    | inl e ↦
        rw (e, history)
          (Ensures-continue (history-Ensures env cid limit none w)
            (λ ms v r. record {
              after =
                  subst (λ x. SameTables w (set_last_50_messages env svc cid ms x)) (sym r.1)
                    (set_last-SameTables cid ms w);
            })
            (λ x v r. subst (SameTables w) (sym r) (same w)))
    | inr (ms, e) ↦ rw (e, history) (record { after = same w })
  ]

  -- `_recent_history` does not raise.
  pub recent_history-SameTables :
      (cid : Uuid) (w : World)
      → Ensures (λ h v. SameTables w v) (λ e v. ⊥) (recent_history env svc cid w)
  unfolding recent_history
  recent_history-SameTables cid w =
      Ensures-except
        (Ensures-continue {m = history env svc cid 20 none w} (history-SameTables cid 20 w)
          (λ ms v same. record { after = same }) (λ e v same. same))
        (λ h v same. same) (λ e v same. record { after = same })

  pub invalidate_cache-SameTables :
      (cid : Uuid) (w : World)
      → Ensures (λ u v. SameTables w v) (λ e v. ⊥) (invalidate_cache env svc cid w)
  unfolding invalidate_cache
  invalidate_cache-SameTables cid w =
      Ensures-if (cache_on env svc && not (env.down cache_evict))
        (λ e. record {
          after = record {
            rows = refl;
            outbox = refl;
            marker = refl;
            streamed = refl;
            inbox = refl;
          };
        })
        (λ e. record { after = same w })
