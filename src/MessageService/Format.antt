-- ===== src/MessageService/Format.antt =====
-- The bounds of the history that `format_history` makes of a conversation's own messages.
use conversation_service.Prelude.{
  ℕ, ◌+◌, ◌-◌, ◌≤◌, ◌<◌, ◌≡◌, refl, Bool, true, false, not, ◌&&◌, ◌||◌, List, [], ◌∷◌, ◌++◌, arith,
  ltb, leb, if◌then◌else◌, length, length-append, All, All-append,
}
use mathlib.Core.List.{reverse, reverse-cons}
use conversation_service.Model.{Message, is_user, is_assistant}
use conversation_service.Text.{length-clip-le}
use conversation_service.State.{HistoryEntry}
use conversation_service.MessageService.{
  history_event_max_messages, history_event_max_message_chars, history_event_max_chars, usable,
  own_entry, format_from, format_history,
}

-- The characters of the entries.
unfoldable pub chars : List HistoryEntry → ℕ
chars [] = 0
chars (e ∷ es) = length e.content + chars es

-- An entry of a user or of the assistant, cut to its bound.
pub record IsBounded (e : HistoryEntry) : Type 0 where
  pub role : (is_user e.role || is_assistant e.role) ≡ true
  pub content : length e.content ≤ history_event_max_message_chars

-- What is picked fits the bounds of the event.
pub record Fits (es : List HistoryEntry) : Type 0 where
  pub few : length es ≤ history_event_max_messages
  pub short : chars es ≤ history_event_max_chars
  pub each : All IsBounded es

own_entry-IsBounded : (m : Message) → usable m ≡ true → IsBounded (own_entry m)
own_entry-IsBounded m u = record {
  role = ground arith;
  content = length-clip-le history_event_max_message_chars m.content;
}

chars-append : (xs ys : List HistoryEntry) → chars (xs ++ ys) ≡ chars xs + chars ys
unfolding chars
chars-append [] ys = omega arith
chars-append (x ∷ xs) ys = omega (arith, chars-append xs ys)

Fits-if :
    (b : Bool) {xs ys : List HistoryEntry}
    → (b ≡ true → Fits xs)
    → (b ≡ false → Fits ys)
    → Fits (if b then xs else ys)
Fits-if true f g = f refl
Fits-if false f g = g refl

-- The entry is within the budget unless the loop stops before it.
within_budget :
    (picked : List HistoryEntry) (budget n : ℕ)
    → chars picked + budget ≡ history_event_max_chars
    → n ≤ history_event_max_message_chars
    → (ltb budget n && leb 1 (length picked)) ≡ false
    → n ≤ budget
unfolding chars
within_budget [] budget n spent short goes_on = ground arith
within_budget (e ∷ es) budget n spent short goes_on = ground arith

one_more :
    (picked : List HistoryEntry) (budget : ℕ) (m : Message)
    → usable m ≡ true
    → chars picked + budget ≡ history_event_max_chars
    → All IsBounded picked
    → length (own_entry m).content ≤ budget
    → (chars (picked ++ own_entry m ∷ []) + (budget - length (own_entry m).content)
        ≡ history_event_max_chars)
      × (length (picked ++ own_entry m ∷ []) ≡ length picked + 1)
      × All IsBounded (picked ++ own_entry m ∷ [])
unfolding chars
one_more picked budget m u spent each le =
    let e = own_entry m in
    let sum : chars (e ∷ []) ≡ length e.content = omega arith in
    (
      omega (arith, chars-append picked (e ∷ []), sum),
      omega (arith, length-append picked (e ∷ [])),
      All-append IsBounded picked (e ∷ []) each (own_entry-IsBounded m u, tt),
    )

format_from-Fits :
    (ms : List Message) (picked : List HistoryEntry) (budget : ℕ)
    → length picked < history_event_max_messages
    → chars picked + budget ≡ history_event_max_chars
    → All IsBounded picked
    → Fits (format_from picked budget ms)
unfolding format_from
format_from-Fits [] picked budget few spent each = record {
  few = omega arith;
  short = omega arith;
  each = each;
}
format_from-Fits (m ∷ ms) picked budget few spent each =
    let e = own_entry m in
    let n = length e.content in
    let bound : n ≤ history_event_max_message_chars =
      length-clip-le history_event_max_message_chars m.content in
    Fits-if (not (usable m)) (λ skip. format_from-Fits ms picked budget few spent each)
      (λ keep_it.
        Fits-if (ltb budget n && leb 1 (length picked))
          (λ full. record { few = omega arith; short = omega arith; each = each })
          (λ goes_on.
            let u : usable m ≡ true = ground arith in
            let le : n ≤ budget = within_budget picked budget n spent bound goes_on in
            let (sum, count, all) = one_more picked budget m u spent each le in
            Fits-if (leb history_event_max_messages (length picked + 1))
              (λ last. record {
                few = omega (arith, count);
                short = omega (arith, sum);
                each = all;
              })
              (λ more.
                format_from-Fits ms (picked ++ e ∷ []) (budget - n) (ground (arith, count)) sum
                  all)))

length-chars-reverse :
    (xs : List HistoryEntry) → (length (reverse xs) ≡ length xs) × (chars (reverse xs) ≡ chars xs)
unfolding chars
length-chars-reverse [] = (refl, refl)
length-chars-reverse (x ∷ xs) =
    let (n, c) = length-chars-reverse xs in
    let one : chars (x ∷ []) ≡ length x.content = omega arith in
    (
      rw (reverse-cons x xs) (omega (arith, length-append (reverse xs) (x ∷ []), n)),
      rw (reverse-cons x xs) (omega (arith, chars-append (reverse xs) (x ∷ []), c, one)),
    )

All-reverse : (xs : List HistoryEntry) → All IsBounded xs → All IsBounded (reverse xs)
All-reverse [] h = tt
All-reverse (x ∷ xs) h =
    rw (reverse-cons x xs)
      (All-append IsBounded (reverse xs) (x ∷ []) (All-reverse xs h.1) (h.0, tt))

Fits-reverse : (es : List HistoryEntry) → Fits es → Fits (reverse es)
Fits-reverse es f = record {
  few = omega (arith, (length-chars-reverse es).0, f.few);
  short = omega (arith, (length-chars-reverse es).1, f.short);
  each = All-reverse es f.each;
}

-- Whatever messages it is given, `format_history` makes at most 10 entries of at most 8000 characters
-- in all, and each entry is a user's or the assistant's and has at most 2000 characters. This is about a
-- conversation's own messages: the entries that the request event of a branch has from the parent
-- are not counted.
pub format_history-Fits :
    (messages_newest_first : List Message) → Fits (format_history messages_newest_first)
unfolding format_history chars
format_history-Fits ms =
    Fits-reverse (format_from [] history_event_max_chars ms)
      (format_from-Fits ms [] history_event_max_chars (omega arith) (omega arith) tt)
