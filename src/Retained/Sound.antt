-- ===== src/Retained/Sound.antt =====
-- Well-formed records, and that the changes made to a record keep it so.
use virtual_accelerator_mana.Base.{
  ℕ, zero, suc, ◌<◌, ◌^◌, ◌≡◌, refl, List, [], ◌∷◌, set, length-set, some, arith,
}
use virtual_accelerator_mana.Retained.{
  RetainedRecord, RetainedEvent, record_size, with_crc, retained_crc32, retained_format, push_event,
  store_event, retained_magic, retained_version,
}
use virtual_accelerator_mana.Retained.Layout.{IsRecord, IsEvent, AllEvents}
use virtual_accelerator_mana.Retained.Ring.{IsRing}

-- The record is one of this version, its fields fit and its events form a ring.
pub record IsSound (r : RetainedRecord) : Type 0 where
  pub fits : IsRecord r
  pub ring : IsRing r
  pub magic : r.magic ≡ retained_magic
  pub version : r.version ≡ retained_version
  pub size : r.length ≡ record_size

retained_crc32-lt : (r : RetainedRecord) → retained_crc32 r < 2 ^ 32
unfolding retained_crc32
retained_crc32-lt r = omega arith

pub with_crc-IsSound : (r : RetainedRecord) → IsSound r → IsSound (with_crc r)
unfolding with_crc
with_crc-IsSound r v = ground (arith, retained_crc32-lt r)

AllEvents-set :
    (es : List RetainedEvent) (i : ℕ) (e : RetainedEvent)
    → AllEvents es
    → IsEvent e
    → AllEvents (set es i e)
AllEvents-set [] i e h f = tt
AllEvents-set (x ∷ es) zero e h f = (f, h.1)
AllEvents-set (x ∷ es) (suc i) e h f = (h.0, AllEvents-set es i e h.1 f)

pub store_event-IsSound :
    (e : RetainedEvent) (r : RetainedRecord) → IsEvent e → IsSound r → IsSound (store_event e r)
unfolding store_event
store_event-IsSound e r f v = ground (
  arith,
  length-set r.events r.event_head e,
  AllEvents-set r.events r.event_head e v.fits.events_fit f,
)

pub retained_format-IsSound :
    (reason generation : ℕ)
    → reason < 2 ^ 32
    → generation < 2 ^ 32
    → IsSound (retained_format reason generation)
unfolding retained_format
retained_format-IsSound reason generation p q = with_crc-IsSound _ (ground arith)

pub push_event-IsSound :
    (e : RetainedEvent) (r : RetainedRecord) {s : RetainedRecord}
    → IsEvent e
    → IsSound r
    → push_event e r ≡ some s
    → IsSound s
unfolding push_event
push_event-IsSound e r f v h = ground (arith, store_event-IsSound e r f v)

pub with_crc_lem : (r : RetainedRecord) → with_crc r ≡ record r { crc32 = retained_crc32 r }
unfolding with_crc
with_crc_lem r = refl

pub push_event-store_event :
    (e : RetainedEvent) (r : RetainedRecord) → IsSound r → push_event e r ≡ some (store_event e r)
unfolding push_event
push_event-store_event e r v = ground (arith, v.ring)
