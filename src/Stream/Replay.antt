-- ===== src/Stream/Replay.antt =====
-- What a reader who comes late is shown.
use conversation_service.Prelude.{
  ℕ, zero, suc, ◌+◌, ◌<◌, ◌≡◌, refl, sym, subst, ap, ◌∙◌, Bool, true, false, not, ◌&&◌, some, List,
  [], ◌∷◌, arith, ltb, ◌==◌, if◌then◌else◌, keep, any, drop,
}
use conversation_service.Model.{Uuid}
use conversation_service.State.{StreamEvent, World, log_read, Env}
use conversation_service.Stream.{is_completed, is_failed, read_log, replay}

-- The log with the ids of its entries, from `i` on.
abbrev pub numbered : ℕ → List StreamEvent → List StreamEvent
numbered i [] = []
numbered i (e ∷ es) = record e { event_id = some i } ∷ numbered (i + 1) es

-- The events of the message `m` after the first `since` entries of the log.
abbrev pub own_events : Uuid → ℕ → List StreamEvent → List StreamEvent
own_events m since log = keep (λ e. e.message_id == m) (drop since (numbered 1 log))

abbrev pub readable : Env → Bool
readable env = env.redis && not (env.down log_read)

-- What is shown when the log can be read, and when it cannot.
abbrev pub Replayed : Uuid → ℕ → List StreamEvent → Bool → List StreamEvent → Type 0
Replayed m since log false shown = shown ≡ []
Replayed m since log true shown =
    (any is_completed (own_events m since log) ≡ false → shown ≡ own_events m since log)
    × (any is_completed (own_events m since log) ≡ true
        → shown ≡ keep (λ e. not (is_failed e)) (own_events m since log))

read_log_all :
    (m : Uuid) (since i : ℕ) (es : List StreamEvent)
    → since < i
    → read_log m since i es ≡ keep (λ e. e.message_id == m) (numbered i es)
unfolding read_log
read_log_all m since i [] h = refl
read_log_all m since i (e ∷ es) h =
    let rest = read_log_all m since (i + 1) es (omega arith) in
    let later : ltb since i ≡ true = ground arith in rw (later, rest, read_log) refl

read_log-drop :
    (m : Uuid) (since k i : ℕ) (es : List StreamEvent)
    → since + 1 ≡ k + i
    → read_log m since i es ≡ keep (λ e. e.message_id == m) (drop k (numbered i es))
unfolding read_log
read_log-drop m since zero i es h = read_log_all m since i es (omega arith)
read_log-drop m since (suc k) i [] h = refl
read_log-drop m since (suc k) i (e ∷ es) h =
    let earlier : ltb since i ≡ false = ground arith in
    rw (earlier, read_log) (read_log-drop m since k (i + 1) es (omega arith))

-- The events that `replay` gives, by cases.
chosen : Bool → List StreamEvent → List StreamEvent
chosen false es = []
chosen true es = if any is_completed es then keep (λ e. not (is_failed e)) es else es

chosen-Replayed :
    (m : Uuid) (since : ℕ) (log : List StreamEvent) (up : Bool)
    → Replayed m since log up (chosen up (own_events m since log))
unfolding chosen
chosen-Replayed m since log false = refl
chosen-Replayed m since log true = (λ n. rw (n, chosen) refl, λ y. rw (y, chosen) refl)

-- A replay shows exactly the events of the message after the given id, in the order of the log and
-- with their ids; when a completion is among these events, the failures among them are left out,
-- and only then. When Redis is off or the log cannot be read, nothing is shown.
pub replay-Replayed :
    (env : Env) (cid m : Uuid) (since : ℕ) (w : World)
    → Replayed m since (w.event_log cid) (readable env) (replay env cid m since w)
unfolding replay chosen
replay-Replayed env cid m since w =
    let log = w.event_log cid in
    let whole : replay env cid m since w ≡ chosen (readable env) (read_log m since 1 log) =
      ground arith in
    let same =
      whole ∙ ap (chosen (readable env)) (read_log-drop m since since 1 log (omega arith)) in
    subst (Replayed m since log (readable env)) (sym same)
      (chosen-Replayed m since log (readable env))
