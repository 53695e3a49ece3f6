-- ===== src/Pipeline/Places.antt =====
-- The places in which a command object can be, and what its owner may rely on there (main.c,
-- firmware/include/vams_scheduler.h).
use virtual_accelerator_mana.Base.{ℕ, ◌≡◌, refl, sym, ap, ◌∙◌, List, [], ◌∷◌, get_or}
use virtual_accelerator_mana.Scheduler.{
  CommandState, CommandObject, free, submitted, queued, running, aborting,
}
use virtual_accelerator_mana.Scheduler.Edges.{IsTerminal}
use virtual_accelerator_mana.Scheduler.Totality.{IsNamed}
use virtual_accelerator_mana.Pipeline.Store.{
  Platform, Store, Receiver, Validator, Dispatcher, Recovery, Publisher, admitted, captured,
  accepted, refused, authorizing, authorized, decided, stalled, watching, aborted, recovered,
  waiting, publishing, stopped,
}

-- The slab, the queues, the array and the hands of the tasks. `at_engine` is in the scheduler's
-- hands from the authorization on.
pub data Place : Type 0 where
  at_pool at_admitted at_captured at_validation at_accepted at_refused at_ready at_array : Place
  at_engine at_decided at_running at_watched at_aborted at_recovered at_completion : Place
  at_publisher : Place

abbrev pub place_code : Place → ℕ
place_code at_pool = 0
place_code at_admitted = 1
place_code at_captured = 2
place_code at_validation = 3
place_code at_accepted = 4
place_code at_refused = 5
place_code at_ready = 6
place_code at_array = 7
place_code at_engine = 8
place_code at_decided = 9
place_code at_running = 10
place_code at_watched = 11
place_code at_aborted = 12
place_code at_recovered = 13
place_code at_completion = 14
place_code at_publisher = 15

place_of : ℕ → Place
place_of n =
    get_or
      (at_pool ∷ at_admitted ∷ at_captured ∷ at_validation ∷ at_accepted ∷ at_refused ∷ at_ready
        ∷ at_array ∷ at_engine ∷ at_decided ∷ at_running ∷ at_watched ∷ at_aborted ∷ at_recovered
        ∷ at_completion ∷ [])
      n at_publisher

place_of-place_code : (p : Place) → place_of (place_code p) ≡ p
unfolding place_of
place_of-place_code at_pool = refl
place_of-place_code at_admitted = refl
place_of-place_code at_captured = refl
place_of-place_code at_validation = refl
place_of-place_code at_accepted = refl
place_of-place_code at_refused = refl
place_of-place_code at_ready = refl
place_of-place_code at_array = refl
place_of-place_code at_engine = refl
place_of-place_code at_decided = refl
place_of-place_code at_running = refl
place_of-place_code at_watched = refl
place_of-place_code at_aborted = refl
place_of-place_code at_recovered = refl
place_of-place_code at_completion = refl
place_of-place_code at_publisher = refl

pub place_code_injective : (p r : Place) → place_code p ≡ place_code r → p ≡ r
place_code_injective p r e = sym (place_of-place_code p) ∙ ap place_of e ∙ place_of-place_code r

-- The completion names the command and the cookie of the descriptor.
abbrev pub Answers : CommandObject → Type 0
Answers c =
    (c.completion.command_id ≡ c.submission.command_id)
    × (c.completion.user_cookie ≡ c.submission.user_cookie)

-- Captured, unpublished and in the state `s`.
abbrev pub IsOpen : CommandState → CommandObject → Type 0
IsOpen s c = (c.state ≡ s) × IsNamed c × (c.publication_count ≡ 0)

abbrev pub IsEnded : CommandObject → Type 0
IsEnded c = IsTerminal c.state × IsNamed c × (c.publication_count ≡ 0) × Answers c

abbrev pub Fits : Place → CommandObject → Type 0
Fits at_pool c = Unit {0}
Fits at_admitted c = c.state ≡ free
Fits at_captured c = IsOpen submitted c
Fits at_validation c = IsOpen submitted c
Fits at_accepted c = IsOpen queued c × Answers c
Fits at_refused c = IsEnded c
Fits at_ready c = IsOpen queued c × Answers c
Fits at_array c = IsOpen queued c × Answers c
Fits at_engine c = IsOpen running c × Answers c
Fits at_decided c = IsEnded c
Fits at_running c = IsOpen running c × Answers c
Fits at_watched c = IsOpen running c × Answers c
Fits at_aborted c = IsOpen aborting c × Answers c
Fits at_recovered c = IsEnded c
Fits at_completion c = IsEnded c
Fits at_publisher c = IsEnded c

abbrev admitted_blocks : Receiver → List ℕ
admitted_blocks (admitted a) = a ∷ []
admitted_blocks _ = []

abbrev captured_blocks : Receiver → List ℕ
captured_blocks (captured a) = a ∷ []
captured_blocks _ = []

abbrev accepted_blocks : Validator → List ℕ
accepted_blocks (accepted a) = a ∷ []
accepted_blocks _ = []

abbrev refused_blocks : Validator → List ℕ
refused_blocks (refused a) = a ∷ []
refused_blocks _ = []

abbrev engine_blocks : Dispatcher → List ℕ
engine_blocks (authorizing deadline a) = a ∷ []
engine_blocks (authorized a) = a ∷ []
engine_blocks (stalled a) = a ∷ []
engine_blocks _ = []

abbrev decided_blocks : Dispatcher → List ℕ
decided_blocks (decided a) = a ∷ []
decided_blocks _ = []

abbrev watched_blocks : Recovery → List ℕ
watched_blocks (watching now a) = a ∷ []
watched_blocks _ = []

abbrev aborted_blocks : Recovery → List ℕ
aborted_blocks (aborted a) = a ∷ []
aborted_blocks _ = []

abbrev recovered_blocks : Recovery → List ℕ
recovered_blocks (recovered a) = a ∷ []
recovered_blocks _ = []

abbrev publisher_blocks : Publisher → List ℕ
publisher_blocks (publishing deadline a) = a ∷ []
publisher_blocks (stopped a) = a ∷ []
publisher_blocks waiting = []

-- The blocks at a place.
abbrev pub content : (p : Platform) → Store p → Place → List ℕ
content p s at_pool = p.slab.free_blocks s.pool
content p s at_admitted = admitted_blocks s.receiver
content p s at_captured = captured_blocks s.receiver
content p s at_validation = p.links.contents s.validation_queue.queue
content p s at_accepted = accepted_blocks s.validator
content p s at_refused = refused_blocks s.validator
content p s at_ready = p.links.contents s.ready_queue.queue
content p s at_array = s.ready
content p s at_engine = engine_blocks s.dispatcher
content p s at_decided = decided_blocks s.dispatcher
content p s at_running = p.links.contents s.running_queue.queue
content p s at_watched = watched_blocks s.recovery
content p s at_aborted = aborted_blocks s.recovery
content p s at_recovered = recovered_blocks s.recovery
content p s at_completion = p.links.contents s.completion_queue.queue
content p s at_publisher = publisher_blocks s.publisher
