-- ===== src/MessageService/Staging.antt =====
-- What each step of `send` and `regenerate` leaves in the tables and in Redis.
use conversation_service.Prelude.{
  ◌+◌, ◌≡◌, refl, sym, subst, ap, ◌∙◌, true, false, not, none, some, [], arith, ==_refl, inl, ◌⊎◌,
}
use conversation_service.Model.{Uuid, assistant, pending}
use conversation_service.State.{
  World, Marker, db_delete, marker_set, marker_zadd, marker_delete, Env,
}
use conversation_service.Errors.Ensures.{Ensures, Ensures-if, Ensures-continue, Ensures-except}
use conversation_service.Messages
use conversation_service.Messages.{mark_deleted, insert_direct, insert_sent, row_or_blank, write}
use conversation_service.Messages.Effects.{create_message_direct-Ensures, direct}
use conversation_service.Messages.Table.{find, upsert}
use conversation_service.MessageService.{Services, cache_on, pending_timeout, marker_grace}
use conversation_service.MessageService.Pending.{
  set_marker, clear_pending_response, register_pending_response, soft_delete_placeholder,
  open_pending_response, discard_pending_response,
}
use conversation_service.MessageService.Reads.{
  row, row-write, row-write-OnlyRow, OnlyRow, Hidden, IsOpen, SameTables,
}

-- The marker of a placeholder that was just opened.
abbrev pub opened_marker : Env → Uuid → Marker
opened_marker env cid = record {
  conversation_id = cid;
  expires_at = env.now + pending_timeout + marker_grace;
}

-- The placeholder `m` is open.
pub record Opened (env : Env) (svc : Services) (cid m : Uuid) (w v : World) : Type 0 where
  pub outbox : v.outbox ≡ w.outbox
  pub others : OnlyRow cid m w v
  pub open_row : IsOpen (row v cid m)
  pub marker : v.marker m ≡ some (opened_marker env cid)
  pub cached : cache_on env svc ≡ true

-- The placeholder `m` is gone, and nothing else changed in the tables.
pub record Withdrawn (cid m : Uuid) (w v : World) : Type 0 where
  pub outbox : v.outbox ≡ w.outbox
  pub others : OnlyRow cid m w v
  pub hidden : Hidden (row v cid m)
  pub marker : v.marker m ≡ none

-- No row and no marker has the id `m` yet.
pub record Fresh (cid m : Uuid) (w : World) : Type 0 where
  pub no_row : row w cid m ≡ none
  pub no_marker : w.marker m ≡ none

-- The calls of a compensation do not raise.
pub record Compensates (env : Env) : Type 0 where
  pub deletes : env.down db_delete ≡ false
  pub clears : env.down marker_delete ≡ false

-- A state whose rows differ from those of `w` in the row of `m` alone.
record Apart (cid m : Uuid) (w v : World) : Type 0 where
  outbox : v.outbox ≡ w.outbox
  others : OnlyRow cid m w v
  marker : v.marker m ≡ none

withdrawn :
    (cid m : Uuid) (w v : World)
    → Apart cid m w v
    → Withdrawn cid m w (write cid (upsert m (mark_deleted m)) v)
withdrawn cid m w v a = record {
  outbox = a.outbox;
  others =
      λ c j ne. row-write-OnlyRow cid m (mark_deleted m) v (λ o. refl) c j ne ∙ a.others c j ne;
  hidden = rw (row-write cid m (mark_deleted m) v (λ o. refl)) refl;
  marker = a.marker;
}

-- These relations read the tables and the markers only.
pub Fresh-SameTables : {cid m : Uuid} {w v : World} → SameTables w v → Fresh cid m w → Fresh cid m v
Fresh-SameTables {cid} {m} {w} {v} s f = record {
  no_row = ap (λ t. find m (t cid)) s.rows ∙ f.no_row;
  no_marker = ap (λ t. t m) s.marker ∙ f.no_marker;
}

pub Opened-SameTables :
    {env : Env} {svc : Services} {cid m : Uuid} {w w' v : World}
    → SameTables w w'
    → Opened env svc cid m w' v
    → Opened env svc cid m w v
Opened-SameTables s o = record {
  outbox = o.outbox ∙ s.outbox;
  others = λ c j ne. o.others c j ne ∙ ap (λ t. find j (t c)) s.rows;
  open_row = o.open_row;
  marker = o.marker;
  cached = o.cached;
}

pub Withdrawn-SameTables :
    {cid m : Uuid} {w w' v : World} → SameTables w w' → Withdrawn cid m w' v → Withdrawn cid m w v
Withdrawn-SameTables s o = record {
  outbox = o.outbox ∙ s.outbox;
  others = λ c j ne. o.others c j ne ∙ ap (λ t. find j (t c)) s.rows;
  hidden = o.hidden;
  marker = o.marker;
}

-- Nothing changed in the tables: a fresh id has no row and no marker.
pub Withdrawn-same :
    {cid m : Uuid} {w v : World} → SameTables w v → Fresh cid m w → Withdrawn cid m w v
Withdrawn-same {cid} {m} {w} {v} s f = Withdrawn-SameTables s (record {
  outbox = refl;
  others = λ c j ne. refl;
  hidden = rw ((Fresh-SameTables s f).no_row) tt;
  marker = (Fresh-SameTables s f).no_marker;
})

module _ (env : Env) (svc : Services) where
  soft_delete_placeholder_lem :
      (cid m : Uuid) (w : World)
      → env.down db_delete ≡ false
      → soft_delete_placeholder env svc cid m w ≡ write cid (upsert m (mark_deleted m)) w
  unfolding soft_delete_placeholder Messages.delete
  soft_delete_placeholder_lem cid m w up = ground arith

  -- With the cache, a clear that can delete leaves no marker.
  clear_pending_response_lem :
      (m : Uuid) (w : World)
      → env.down marker_delete ≡ false
      → (cache_on env svc ≡ true) ⊎ (w.marker m ≡ none)
      → (v : World) → v ≡ clear_pending_response env svc m w
      → (v.rows ≡ w.rows) × (v.outbox ≡ w.outbox) × (v.marker m ≡ none)
  unfolding clear_pending_response
  clear_pending_response_lem m w up on v e = ground (arith, ==_refl m)

  register_pending_response-Ensures :
      (cid m : Uuid) (w : World)
      → env.down marker_delete ≡ false
      → w.marker m ≡ none
      → Ensures
          (λ u v.
            (v.rows ≡ w.rows)
            × (v.outbox ≡ w.outbox)
            × (v.marker m ≡ some (opened_marker env cid))
            × (cache_on env svc ≡ true))
          (λ e v. (v.rows ≡ w.rows) × (v.outbox ≡ w.outbox) × (v.marker m ≡ none))
          (register_pending_response env svc cid m w)
  unfolding register_pending_response
  register_pending_response-Ensures cid m w up k =
      let set = set_marker m (some (opened_marker env cid)) w in
      let on : not (cache_on env svc) ≡ false → cache_on env svc ≡ true = λ e. ground arith in
      Ensures-if (not (cache_on env svc)) (λ off. record { after = (refl, refl, k) })
        (λ e.
          Ensures-if (env.down marker_set)
            (λ d. record { after = clear_pending_response_lem m w up (inl (on e)) _ refl })
            (λ s.
              Ensures-if (env.down marker_zadd)
                (λ d. record { after = clear_pending_response_lem m set up (inl (on e)) _ refl })
                (λ z. record { after = (refl, refl, rw (==_refl m) refl, on e) })))

  -- A placeholder is opened, or it is withdrawn.
  pub open_pending_response-Ensures :
      (cid m : Uuid) (w : World)
      → Compensates env
      → Fresh cid m w
      → Ensures
          (λ u v. Opened env svc cid m w v)
          (λ e v. Withdrawn cid m w v)
          (open_pending_response env svc cid m w)
  unfolding open_pending_response
  open_pending_response-Ensures cid m w up fresh =
      let f = insert_direct m assistant [] env.now pending [] in
      let put = direct env cid m assistant [] pending [] w in
      let only = row-write-OnlyRow cid m f w (λ o. refl) in
      let at = row-write cid m f w (λ o. refl) in
      Ensures-continue (create_message_direct-Ensures env cid m assistant [] pending [] w)
        (λ msg v s.
          let registered =
            register_pending_response-Ensures cid m v up.clears
              (subst (λ x. x.marker m ≡ none) (sym s.0) fresh.no_marker) in
          let same_rows : (x : World) → x.rows ≡ v.rows → x.rows ≡ put.rows =
            λ x r. r ∙ ap (λ y. y.rows) s.0 in
          Ensures-except registered
            (λ u x r. record {
              outbox = r.1 ∙ ap (λ y. y.outbox) s.0;
              others = λ c j ne. ap (λ t. find j (t c)) (same_rows x r.0) ∙ only c j ne;
              open_row =
                  subst IsOpen (sym (ap (λ t. find m (t cid)) (same_rows x r.0) ∙ at))
                    (refl, refl, refl);
              marker = r.2;
              cached = r.3;
            })
            (λ e x r. record {
              after = rw (soft_delete_placeholder_lem cid m x up.deletes) (
                  withdrawn cid m w x (record {
                    outbox = r.1 ∙ ap (λ y. y.outbox) s.0;
                    others = λ c j ne. ap (λ t. find j (t c)) (same_rows x r.0) ∙ only c j ne;
                    marker = r.2;
                  }));
            }))
        (λ e v s. subst (Withdrawn cid m w) (sym s.0) (record {
          outbox = refl;
          others = λ c j ne. refl;
          hidden = rw fresh.no_row tt;
          marker = fresh.no_marker;
        }))

  -- Giving up on an open placeholder withdraws it.
  pub discard_pending_response-Withdrawn :
      (cid m : Uuid) (w v : World)
      → Compensates env
      → Opened env svc cid m w v
      → Withdrawn cid m w (discard_pending_response env svc cid m v)
  unfolding discard_pending_response
  discard_pending_response-Withdrawn cid m w v up opened =
      let f = mark_deleted m in
      let cleared =
        clear_pending_response_lem m (write cid (upsert m f) v) up.clears (inl opened.cached) _
          refl in
      rw (soft_delete_placeholder_lem cid m v up.deletes) (record {
        outbox = cleared.1 ∙ opened.outbox;
        others = λ c j ne.
            ap (λ t. find j (t c)) cleared.0
            ∙ row-write-OnlyRow cid m f v (λ o. refl) c j ne
            ∙ opened.others c j ne;
        hidden =
            subst Hidden
              (sym (ap (λ t. find m (t cid)) cleared.0 ∙ row-write cid m f v (λ o. refl))) refl;
        marker = cleared.2;
      })
