-- ===== src/Services/Answering.antt =====
-- The mailbox service answers (main.c, vams_mailbox_service).
use native.Mathlib.Decide.{ℕ_discrete}
use virtual_accelerator_mana.Base.{
  ◌-◌, ◌≢◌, ℕ, ◌+◌, ◌<◌, ◌^◌, ◌≡◌, refl, sym, ap, ◌∙◌, ◌⊎◌, Bool-cases, subst, true, false, Bool,
  ◌!=◌, List, [], ◌∷◌, Option, none, some, bit_and, inl, inr, arith,
}
use virtual_accelerator_mana.Zephyr.{Mmio, Msgq, IsRam, Status, eagain}
use virtual_accelerator_mana.Management.{retention_base}
use virtual_accelerator_mana.Log.{Log, Event, event_mailbox}
use virtual_accelerator_mana.Log.Invariant.{IsLog}
use virtual_accelerator_mana.Log.Emit.{emit_total}
use virtual_accelerator_mana.Mailbox.{
  mailbox_receive, mailbox_respond, status_register, response_register, response_doorbell,
  response_pending,
}
use virtual_accelerator_mana.Services.Mail.{
  Mail, mailbox_progress, response_to, serve, mailbox_service,
}

-- A ping is answered as such, and any other message refused.
abbrev pub IsAnswer : ℕ → ℕ → Type 0
IsAnswer message response =
    (message ≡ 1) × (response ≡ 2 ^ 31 + 1) ⊎ (message ≢ 1) × (response ≡ 2 ^ 32 - 1)

response_to-IsAnswer : (message : ℕ) → IsAnswer message (response_to message)
response_to-IsAnswer message = elim (ℕ_discrete message 1) [
  | yes ping ↦ inl (ping, ground arith)
  | no other ↦ inr (other, ground arith)
]

module _ (m : Mmio) (base : ℕ) (q : Msgq Event) (ram : IsRam m (base + retention_base) 32)
    (clock : ℕ → ℕ) (b : Mmio) (port : ℕ) (inbox : Msgq ℕ) where
  open b use {Device, read32, write32}

  -- Whether the host has yet to take the last response.
  abbrev pub holds_response : Device → Bool
  holds_response d = bit_and (read32 (port + status_register) d).0 response_pending != 0

  -- The mailbox with the response stored and its doorbell rung.
  abbrev pub with_response : ℕ → Device → Device
  with_response response d =
      write32 1 (port + response_doorbell)
        (write32 response (port + response_register) (read32 (port + status_register) d).1)

  -- How a turn of the service ends.
  pub data Served (s : Mail m base q clock b port inbox)
      : Option (Mail m base q clock b port inbox) → Type 0 where
    no_message :
        inbox.contents s.messages ≡ []
        → Served s (some (mailbox_progress m base q clock b port inbox s))
    answered :
        (message response : ℕ) (rest : inbox.Queue) (l : Log m q)
        → inbox.contents s.messages ≡ message ∷ inbox.contents rest
        → holds_response s.mailbox ≡ false
        → IsAnswer message response
        → IsLog m base q ram l
        → Served s (
            some (record (mailbox_progress m base q clock b port inbox s) {
              mailbox = with_response response s.mailbox;
              messages = rest;
              log = l;
            }))
    failed :
        (message : ℕ) (rest : inbox.Queue)
        → inbox.contents s.messages ≡ message ∷ inbox.contents rest
        → holds_response s.mailbox ≡ true
        → Served s none

  abbrev result :
      inbox.Queue × (Status ⊎ ℕ)
      → Mail m base q clock b port inbox
      → Option (Mail m base q clock b port inbox)
  result r s = serve m base q clock b port inbox r s

  received :
      (message : ℕ) (rest : inbox.Queue) (s : Mail m base q clock b port inbox)
      → inbox.contents s.messages ≡ message ∷ inbox.contents rest
      → IsLog m base q ram s.log
      → s.generation < 2 ^ 32
      → Served s (result (rest, inr message) (mailbox_progress m base q clock b port inbox s))
  unfolding mailbox_respond
  received message rest s e v g = elim (Bool-cases (holds_response s.mailbox)) [
    | inl held ↦ rw held (failed message rest e held)
    | inr clear ↦
        let (l, done, k) =
          emit_total m base q ram clock event_mailbox 0 s.generation message (response_to message) 0
            0 s.log v (omega arith) (omega arith) g in
        rw (clear, done)
          (answered message (response_to message) rest l e clear (response_to-IsAnswer message)
            k.is_log)
  ]

  taken :
      (s : Mail m base q clock b port inbox) → Option (ℕ × inbox.Queue) → inbox.Queue × (Status ⊎ ℕ)
  taken s none = (s.messages, inl eagain)
  taken s (some (message, rest)) = (rest, inr message)

  received_as :
      (s : Mail m base q clock b port inbox) (o : Option (ℕ × inbox.Queue))
      → inbox.get s.messages ≡ o
      → mailbox_receive b port inbox true s.messages ≡ taken s o
  unfolding mailbox_receive taken
  received_as s none e = rw e refl
  received_as s (some (message, rest)) e = rw e refl

  served_when :
      (s : Mail m base q clock b port inbox) (messages : List ℕ)
      → inbox.contents s.messages ≡ messages
      → IsLog m base q ram s.log
      → s.generation < 2 ^ 32
      → Served s (
          result
            (mailbox_receive b port inbox true s.messages)
            (mailbox_progress m base q clock b port inbox s))
  unfolding taken
  served_when s [] e v g =
      subst (λ r. Served s (result r (mailbox_progress m base q clock b port inbox s)))
        (sym (received_as s none (inbox.get_empty s.messages e))) (no_message e)
  served_when s (message ∷ more) e v g =
      let (rest, done, left, same) = inbox.get_first message more s.messages e in
      subst (λ r. Served s (result r (mailbox_progress m base q clock b port inbox s)))
        (sym (received_as s (some (message, rest)) done))
        (received message rest s (e ∙ ap (λ xs. message ∷ xs) (sym left)) v g)

  -- With a valid record and a generation that fits its field, a turn of the mailbox service leaves
  -- an empty queue alone; it takes the first message and stores the response to it, 2^31 + 1 to
  -- the ping 1 and 2^32 - 1 to anything else, and the record is again valid; or it fails an
  -- assertion, exactly where the host has yet to take the last response.
  pub mailbox_service-Served :
      (s : Mail m base q clock b port inbox)
      → IsLog m base q ram s.log
      → s.generation < 2 ^ 32
      → Served s (mailbox_service m base q clock b port inbox s)
  unfolding mailbox_service
  mailbox_service-Served s v g = served_when s (inbox.contents s.messages) refl v g
