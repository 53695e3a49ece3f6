-- ===== src/Portal/Layout.antt =====
-- Descriptors and completions are read back from their words.
use virtual_accelerator_mana.Base.{◌≡◌, refl, length, arith}
use virtual_accelerator_mana.Abi.{Submission, Completion, IsSubmission, IsCompletion}
use virtual_accelerator_mana.Portal.{
  submission_words, submission_of_words, completion_words, completion_of_words, double,
}

-- A descriptor whose fields fit their widths is read back from the words that the host stores.
pub submission_of_words-submission_words :
    (s : Submission) → IsSubmission s → submission_of_words (submission_words s) ≡ s
unfolding submission_of_words submission_words double
submission_of_words-submission_words s w = ground arith

-- A completion whose fields fit their widths is read back from its words.
pub completion_of_words-completion_words :
    (c : Completion) → IsCompletion c → completion_of_words (completion_words c) ≡ c
unfolding completion_of_words completion_words double
completion_of_words-completion_words c w = ground arith

pub length-completion_words : (c : Completion) → length (completion_words c) ≡ 8
unfolding completion_words
length-completion_words c = refl

pub length-submission_words : (s : Submission) → length (submission_words s) ≡ 16
unfolding submission_words
length-submission_words s = refl
