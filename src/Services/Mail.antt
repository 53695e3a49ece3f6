-- ===== src/Services/Mail.antt =====
-- The mailbox service (main.c, vams_mailbox_service, and firmware/include/vams_mailbox.h), on the
-- mailbox at `port` of the bus `b` with the queue `inbox` of received messages. `none` is a failed
-- assertion.
use virtual_accelerator_mana.Base.{
  ℕ, ◌+◌, u32, inl, inr, true, if◌then◌else◌, ◌==◌, Option, none, some, ◌⊎◌,
}
use virtual_accelerator_mana.Zephyr.{Mmio, Msgq, Status, success, eagain}
use virtual_accelerator_mana.Log.{Log, Event, emit, event_mailbox, ◌>>=◌}
use virtual_accelerator_mana.Mailbox.{mailbox_receive, mailbox_respond}

abbrev pub mailbox_ping : ℕ
mailbox_ping = 0x00000001

abbrev pub mailbox_ping_response : ℕ
mailbox_ping_response = 0x80000001

abbrev pub mailbox_unsupported : ℕ
mailbox_unsupported = 0xffffffff

abbrev pub response_to : ℕ → ℕ
response_to message = if message == mailbox_ping then mailbox_ping_response else mailbox_unsupported

module _ (m : Mmio) (base : ℕ) (q : Msgq Event) (clock : ℕ → ℕ) (b : Mmio) (port : ℕ)
    (inbox : Msgq ℕ) where
  pub record Mail : Type 0 where
    pub mailbox : b.Device
    pub messages : inbox.Queue
    pub log : Log m q
    pub generation : ℕ
    pub epoch : ℕ

  abbrev pub mailbox_progress : Mail → Mail
  mailbox_progress s = record s { epoch = u32 (s.epoch + 1) }

  -- The answer has been tried.
  abbrev pub responded : ℕ → b.Device × Status → Mail → Option Mail
  responded message (d, success) s = do
    l ← emit m base q clock event_mailbox 0 s.generation message (response_to message) 0 0 s.log
    some (record s { mailbox = d; log = l })
  responded message (d, _) s = none

  -- The driver has been asked for a message.
  abbrev pub serve : inbox.Queue × (Status ⊎ ℕ) → Mail → Option Mail
  serve (rest, inl eagain) s = some (record s { messages = rest })
  serve (rest, inl _) s = none
  serve (rest, inr message) s =
      responded message (mailbox_respond b port inbox true (response_to message) s.mailbox)
        (record s { messages = rest })

  -- A turn of the service's loop, with its wait over.
  unfoldable pub mailbox_service : Mail → Option Mail
  mailbox_service s = serve (mailbox_receive b port inbox true s.messages) (mailbox_progress s)
