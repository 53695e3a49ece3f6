-- ===== src/Pipeline/Receiving.antt =====
-- The steps of the receiver (main.c, vams_command_receiver).
use virtual_accelerator_mana.Base.{
  ℕ, ◌+◌, ◌<◌, ◌^◌, ◌≡◌, refl, Bool, true, false, if◌then◌else◌, Option, none, some, update,
  update_self, update_ne, u32, arith,
}
use virtual_accelerator_mana.Abi.{Submission}
use virtual_accelerator_mana.Zephyr.Words.{read_words, read_words-lt}
use virtual_accelerator_mana.Portal.{receive, submission_window, fw_ack, submission_of_words}
use virtual_accelerator_mana.Scheduler.{CommandObject}
use virtual_accelerator_mana.Pipeline.Store.{
  Platform, Store, Receiver, give_back, seeking, admitted, captured,
}
use virtual_accelerator_mana.Pipeline.Places.{content, at_pool, at_admitted, at_captured}
use virtual_accelerator_mana.Pipeline.Ownership.{Counted, one_here, absent}
use virtual_accelerator_mana.Pipeline.Handing.{bind_some}
use virtual_accelerator_mana.Pipeline.Invariant.{IsMachine, IsConsistent, Succeeds, moved, aside}
use virtual_accelerator_mana.Pipeline.Steps.{task_step, receiver}
use virtual_accelerator_mana.Pipeline.Intake.{receiver_step, received}
use virtual_accelerator_mana.Pipeline.Worked.{take_in-IsOpen}
use virtual_accelerator_mana.Pipeline.Admitting.{submit, seek-IsConsistent}

module _ (p : Platform) (machine : IsMachine p) where
  abbrev snd : p.portal_bus.Device × Option Submission → Option Submission
  snd r = r.1

  descriptor_fits :
      (d : p.portal_bus.Device) (ready : Bool) (c : Submission)
      → snd (
          if ready
          then (let (d2, ws) = read_words p.portal_bus (p.portal_base + submission_window) 16 0 d in
              (p.portal_bus.write32 1 (p.portal_base + fw_ack) d2, some (submission_of_words ws)))
          else (d, none))
        ≡ some c
      → c.command_id < 2 ^ 32
  unfolding submission_of_words
  descriptor_fits d true c e =
      let w =
        read_words-lt p.portal_bus (p.portal_base + submission_window) (2 ^ 32) (omega arith)
          machine.word 16 0 1 d in
      ground (arith, w, e)
  descriptor_fits d false c e = cc

  -- The command id of a descriptor from the portal is a word.
  received_fits :
      (s : Store p) (c : Submission)
      → (receive p.portal_bus p.portal_base p.sleep 0 s.portal).1 ≡ some c
      → c.command_id < 2 ^ 32
  unfolding receive
  received_fits s c e = descriptor_fits _ _ c e

  received-IsConsistent :
      (a : ℕ) (o : Option Submission) (s0 : Store p)
      → ((c : Submission) → o ≡ some c → c.command_id < 2 ^ 32)
      → IsConsistent p machine (record s0 { receiver = admitted a })
      → (t : Store p) × (received p a o (record s0 { receiver = admitted a }) ≡ some t)
        × IsConsistent p machine t
  received-IsConsistent a none s0 fits v =
      let s : Store p = record s0 { receiver = admitted a } in
      let t : Store p = record (give_back p a s) { receiver = seeking } in
      let not_free =
        absent s.objects (content p s) v.owned at_pool at_admitted a (λ e. cc) (one_here a) in
      (
        t,
        refl,
        moved p machine {a = a} {from = at_admitted} {to = at_pool} s t v
            (record {
              held = one_here a;
              counted = λ r. elim r as (Counted a at_admitted at_pool (content p s) (content p t)) [
                | at_pool ↦ λ b. omega (arith, p.slab.release_lem a s.pool not_free b)
                | at_admitted ↦ λ b. omega arith
                | _ ↦ λ b. refl
              ];
              others = λ b n. refl;
              fit = tt;
            })
            v.is_log refl v.deep,
      )
  received-IsConsistent a (some descriptor) s0 fits v =
      let s : Store p = record s0 { receiver = admitted a } in
      let c0 : CommandObject = record (s.objects a) { submission = descriptor } in
      let (c, l, done, w, open') =
        take_in-IsOpen p.bus p.base p.events machine.ram p.clock s.generation (u32 (s.sequence + 1))
          c0 s.log v.is_log (fits descriptor refl) v.generation_fits
          (v.owned.fits at_admitted a (one_here a)) in
      let t : Store p = record s {
        sequence = u32 (s.sequence + 1);
        objects = update s.objects a c;
        log = l;
        receiver = captured a;
      } in
      (
        t,
        bind_some _ done,
        moved p machine {a = a} {from = at_admitted} {to = at_captured} s t v
            (record {
              held = one_here a;
              counted = λ r.
                  elim r as (Counted a at_admitted at_captured (content p s) (content p t)) [
                    | at_admitted ↦ λ b. omega arith
                    | at_captured ↦ λ b. omega arith
                    | _ ↦ λ b. refl
                  ];
              others = λ b n. update_ne s.objects a b c n;
              fit = rw (update_self s.objects a c) open';
            })
            w refl v.deep,
      )

  receive-IsConsistent :
      (a : ℕ) (s0 : Store p)
      → IsConsistent p machine (record s0 { receiver = admitted a })
      → Succeeds p machine receiver (record s0 { receiver = admitted a })
  unfolding task_step receiver_step
  receive-IsConsistent a s0 v =
      let (d, o) = receive p.portal_bus p.portal_base p.sleep 0 s0.portal in
      received-IsConsistent a o (record s0 { portal = d }) (λ c e. received_fits s0 c e)
        (aside p machine (record s0 { receiver = admitted a }) v)

  step_from :
      (r : Receiver) (s : Store p)
      → IsConsistent p machine (record s { receiver = r })
      → Succeeds p machine receiver (record s { receiver = r })
  step_from seeking s v = seek-IsConsistent p machine s v
  step_from (admitted a) s v = receive-IsConsistent a s v
  step_from (captured a) s v = submit p machine a s v

  pub receiver-Succeeds : (s : Store p) → IsConsistent p machine s → Succeeds p machine receiver s
  receiver-Succeeds s v = step_from s.receiver s v
