-- ===== src/Retained/Ring.antt =====
-- The ring of the four last events, as a history cut to its newest entries.
use virtual_accelerator_mana.Base.{
  ℕ, zero, suc, ◌+◌, ◌%◌, ◌≤◌, ◌<◌, ◌≡◌, refl, ap, ◌∙◌, List, [], ◌∷◌, ◌++◌, Option, none, some,
  get_or, set, take, length, length-set, ltb, if◌then◌else◌, arith, take-take_cons,
}
use mathlib.Core.List.{reverse, reverse-cons, append_assoc, append-nil}
use virtual_accelerator_mana.Retained.{
  RetainedRecord, RetainedEvent, no_event, retained_event_count, push_event, store_event,
  retained_format, with_crc,
}
use virtual_accelerator_mana.Retained.Layout.{four_events}

-- Newest first, from the slot before the head.
pub recent : ℕ → ℕ → List RetainedEvent → List RetainedEvent
recent zero head events = []
recent (suc count) head events =
    get_or events ((head + 3) % 4) no_event ∷ recent count ((head + 3) % 4) events

abbrev pub recent_events : RetainedRecord → List RetainedEvent
recent_events r = recent r.event_count r.event_head r.events

-- The head and the count that pushes from an empty ring give.
pub record IsRing (r : RetainedRecord) : Type 0 where
  pub head_in_range : r.event_head < retained_event_count
  pub count_in_range : r.event_count ≤ retained_event_count
  pub filling : r.event_count < retained_event_count → r.event_head ≡ r.event_count
  pub slots : length r.events ≡ retained_event_count

abbrev Fits : ℕ → ℕ → Type 0
Fits count head = (head < 4) × (count ≤ 4) × (count < 4 → head ≡ count)

recent_push :
    (count head : ℕ) (a b c d e : RetainedEvent)
    → Fits count head
    → recent
        (if ltb count 4 then count + 1 else count)
        ((head + 1) % 4)
        (set (a ∷ b ∷ c ∷ d ∷ []) head e)
      ≡ take 4 (e ∷ recent count head (a ∷ b ∷ c ∷ d ∷ []))
unfolding recent
recent_push zero zero a b c d e f = refl
recent_push (suc zero) (suc zero) a b c d e f = refl
recent_push (suc (suc zero)) (suc (suc zero)) a b c d e f = refl
recent_push (suc (suc (suc zero))) (suc (suc (suc zero))) a b c d e f = refl
recent_push (suc (suc (suc (suc zero)))) zero a b c d e f = refl
recent_push (suc (suc (suc (suc zero)))) (suc zero) a b c d e f = refl
recent_push (suc (suc (suc (suc zero)))) (suc (suc zero)) a b c d e f = refl
recent_push (suc (suc (suc (suc zero)))) (suc (suc (suc zero))) a b c d e f = refl
recent_push _ _ a b c d e f = absurd (omega arith)

pub record Pushed (e : RetainedEvent) (r s : RetainedRecord) : Type 0 where
  pub ring : IsRing s
  pub newest : recent_events s ≡ take 4 (e ∷ recent_events r)

pub store_event-IsRing :
    (e : RetainedEvent) (r : RetainedRecord) → IsRing r → IsRing (store_event e r)
unfolding store_event
store_event-IsRing e r v = ground (arith, length-set r.events r.event_head e)

pub store_event_newest :
    (e : RetainedEvent) (r : RetainedRecord)
    → IsRing r
    → recent_events (store_event e r) ≡ take 4 (e ∷ recent_events r)
unfolding store_event
store_event_newest e r v =
    let (a, b, c, d, h) = four_events r.events v.slots in
    rw h (
      recent_push r.event_count r.event_head a b c d e
        (v.head_in_range, v.count_in_range, v.filling))

-- On a ring the write stays inside the array, gives a ring again, and puts the event in front of
-- the events held, of which at most four stay.
pub push_event_total :
    (e : RetainedEvent) (r : RetainedRecord)
    → IsRing r
    → (s : RetainedRecord) × (push_event e r ≡ some s) × Pushed e r s
unfolding push_event
push_event_total e r v = (
  store_event e r,
  ground (arith, v.head_in_range),
  record { ring = store_event-IsRing e r v; newest = store_event_newest e r v },
)

-- The pushes of a history, its oldest event first.
pub push_events : List RetainedEvent → RetainedRecord → Option RetainedRecord
push_events [] r = some r
push_events (e ∷ es) r = elim (push_event e r) [ none ↦ none | some s ↦ push_events es s ]

-- The newest entries of `es` on top of `base`, at most four.
pub newest_of : List RetainedEvent → List RetainedEvent → List RetainedEvent
newest_of [] base = base
newest_of (e ∷ es) base = newest_of es (take 4 (e ∷ base))

push_events_from :
    (es : List RetainedEvent) (r : RetainedRecord)
    → IsRing r
    → (s : RetainedRecord) × (push_events es r ≡ some s)
      × IsRing s
      × (recent_events s ≡ newest_of es (recent_events r))
unfolding push_events newest_of
push_events_from [] r v = (r, refl, v, refl)
push_events_from (e ∷ es) r v =
    let (s, stored, p) = push_event_total e r v in
    let (t, rest, w, h) = push_events_from es s p.ring in
    (t, rw (stored, push_events) rest, w, h ∙ ap (newest_of es) p.newest)

take-reverse :
    (es : List RetainedEvent) (base : List RetainedEvent)
    → newest_of es (take 4 base) ≡ take 4 (reverse es ++ base)
unfolding newest_of
take-reverse [] base = refl
take-reverse (e ∷ es) base =
    rw (take-take_cons 3 e base, reverse-cons e es, append_assoc) (take-reverse es (e ∷ base))

format-IsRing : (reason generation : ℕ) → IsRing (retained_format reason generation)
unfolding retained_format with_crc
format-IsRing reason generation = ground arith

format_empty : (reason generation : ℕ) → recent_events (retained_format reason generation) ≡ []
unfolding retained_format with_crc recent
format_empty reason generation = refl

-- After any history of events on a fresh record no write has left the array, and the record holds
-- the four newest events of the history, newest first, or all of a shorter one.
pub push_events-format :
    (reason generation : ℕ) (es : List RetainedEvent)
    → (s : RetainedRecord) × (push_events es (retained_format reason generation) ≡ some s)
      × (recent_events s ≡ take 4 (reverse es))
push_events-format reason generation es =
    let r = retained_format reason generation in
    let (s, stored, v, h) = push_events_from es r (format-IsRing reason generation) in
    (
      s,
      stored,
      rw (h, format_empty reason generation) (take-reverse es [] ∙ ap (take 4) (append-nil _)),
    )

pub with_crc_recent : (r : RetainedRecord) → recent_events (with_crc r) ≡ recent_events r
unfolding with_crc
with_crc_recent r = refl
