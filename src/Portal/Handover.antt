-- ===== src/Portal/Handover.antt =====
-- What crosses the portal: the host reads the completion that was given, and the firmware receives
-- the descriptor that the host stored.
use virtual_accelerator_mana.Base.{
  ℕ, ◌+◌, ◌≡◌, refl, Bool, true, false, ◌!=◌, if◌then◌else◌, List, length, some, none, arith,
  bit_and,
}
use virtual_accelerator_mana.Abi.{Submission, Completion, IsSubmission, IsCompletion}
use virtual_accelerator_mana.Zephyr.{Mmio, IsRam, Status, success, ebusy}
use virtual_accelerator_mana.Zephyr.Words.{
  read_words, write_words, Holds, read_words-Holds, write_words-Holds,
}
use virtual_accelerator_mana.Portal.{
  submission_window, completion_window, fw_ack, fw_complete, fw_abort, f2h_pending, h2f_pending,
  result_pending, submission_words, completion_words, completion_of_words, await, receive, complete,
  abort,
}
use virtual_accelerator_mana.Portal.Layout.{
  length-submission_words, submission_of_words-submission_words,
  completion_of_words-completion_words,
}

module _ (m : Mmio) (base : ℕ) (window : IsRam m (base + completion_window) 8) where
  open m use {Device, read32, write32}

  -- How a call ends that hands over `c` with the doorbell `bell`, unless the host has set the bit
  -- `mask`.
  pub data HandsOver (mask bell : ℕ) (c : Completion) (d : Device) : Device × Status → Type 0 where
    busy :
        (bit_and (read32 base d).0 mask != 0) ≡ true
        → HandsOver mask bell c d ((read32 base d).1, ebusy)
    handed :
        (d' : Device) (ws : List ℕ)
        → (bit_and (read32 base d).0 mask != 0) ≡ false
        → read_words m (base + completion_window) 8 0 d' ≡ (d', ws)
        → completion_of_words ws ≡ c
        → HandsOver mask bell c d (write32 1 (base + bell) d', success)

  stored :
      (mask bell : ℕ) (c : Completion) (d : Device)
      → IsCompletion c
      → (bit_and (read32 base d).0 mask != 0) ≡ false
      → HandsOver mask bell c d (
        write32 1
            (base + bell)
            (write_words m (base + completion_window) (completion_words c) 0 (read32 base d).1),
        success,
      )
  unfolding completion_words
  stored mask bell c d w clear =
      let ws = completion_words c in
      let d1 = (read32 base d).1 in
      let held = write_words-Holds m (base + completion_window) 8 window ws 0 d1 (omega arith) in
      handed (write_words m (base + completion_window) ws 0 d1) ws clear
        (read_words-Holds m (base + completion_window) 8 window ws 0 _ (omega arith) held)
        (completion_of_words-completion_words c w)

  ended :
      (mask bell : ℕ) (c : Completion) (d : Device)
      → IsCompletion c
      → (taken : Bool) → (bit_and (read32 base d).0 mask != 0) ≡ taken
      → HandsOver mask bell c d (
          if taken then ((read32 base d).1, ebusy) else (
            write32 1
                (base + bell)
                (write_words m (base + completion_window) (completion_words c) 0 (read32 base d).1),
            success,
          ))
  ended mask bell c d w true e = busy e
  ended mask bell c d w false e = stored mask bell c d w e

  -- With a completion window that is memory, a completion or an abort request whose fields fit is
  -- either refused, nothing being written, where the host has not taken the last one, or it stands
  -- in the window, to be read back whole, when the doorbell is rung.
  pub complete-HandsOver :
      (c : Completion) (d : Device)
      → IsCompletion c
      → HandsOver f2h_pending fw_complete c d (complete m base c d)
        × HandsOver result_pending fw_abort c d (abort m base c d)
  unfolding complete abort
  complete-HandsOver c d w =
      (ended f2h_pending fw_complete c d w _ refl, ended result_pending fw_abort c d w _ refl)

module _ (m : Mmio) (base : ℕ) (sleep : m.Device → m.Device) where
  open m use {Device, read32, write32}

  -- A receive whose wait ends at a device with the words of a descriptor in the window, which is
  -- memory, acknowledges it and gives the descriptor; one whose wait times out gives nothing and
  -- acknowledges nothing.
  pub receive-submission_words :
      (window : IsRam m (base + submission_window) 16) (s : Submission) (polls : ℕ) (d d' : Device)
      (found : Bool)
      → IsSubmission s
      → await m base sleep h2f_pending polls d ≡ (d', found)
      → Holds m (base + submission_window) 16 window 0 (submission_words s) d'
      → receive m base sleep polls d
        ≡ (if found then (write32 1 (base + fw_ack) d', some s) else (d', none))
  unfolding receive submission_words
  receive-submission_words window s polls d d' true w e held =
      let n : length (submission_words s) ≡ 16 = length-submission_words s in
      let read : read_words m (base + submission_window) 16 0 d' ≡ (d', submission_words s) =
        read_words-Holds m (base + submission_window) 16 window (submission_words s) 0 d'
          (omega (arith, n)) held in
      rw (e, read, submission_of_words-submission_words s w) refl
  receive-submission_words window s polls d d' false w e held = rw e refl
