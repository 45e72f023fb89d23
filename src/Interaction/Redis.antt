-- ===== src/Interaction/Redis.antt =====
-- The coordinator on Redis (include/ccmcp/interaction/redis_interaction_coordinator.h,
-- src/interaction/redis_interaction_coordinator.cpp). A call is several Redis commands, and other
-- clients may run theirs in between: `between n` is what they do to the store after the call's
-- command number n. The Lua script is one command.
pub mod Writes
pub mod Calls
pub mod Mirror
pub mod Races
pub mod Receipts
use career_coordination_mcp.Prelude.{
  ℕ, zero, suc, ◌+◌, ◌≡◌, Str, lit, Bool, true, false, not, ◌||◌, ◌&&◌, Option, none, some, [],
  ◌++◌, if◌then◌else◌, str_eq, to_string, ◌==◌,
}
use career_coordination_mcp.Prelude.Decimal.{stoi}
use career_coordination_mcp.Domain.Interaction.{
  InteractionState, draft, ready, sent, responded, closed, InteractionEvent, prepare, send,
  receive_reply, close, Interaction, can_transition, apply,
}
use career_coordination_mcp.Interaction.Coordinator.{
  TransitionOutcome, applied, already_applied, conflict, not_found, invalid_transition,
  backend_error, TransitionResult, StateInfo,
}

-- The commands of Redis that the coordinator sends, and what it relies on: `EXISTS`, `HGET` and `HSET`.
-- `HGETALL` with `.at(field)` on the answer is `HGET` of that field at the same moment.
pub record Redis : Type 1 where
  pub Store : Type 0
  pub exists : Store → Str → Bool
  pub hget : Store → Str → Str → Option Str
  pub hset : Store → Str → Str → Str → Store
  pub exists-hset :
      (store : Store) (key field value j : Str)
      → exists (hset store key field value) j ≡ (str_eq key j || exists store j)
  pub hget-hset :
      (store : Store) (key field value j f : Str)
      → hget (hset store key field value) j f
        ≡ (if str_eq key j && str_eq field f then some value else hget store j f)

unfoldable pub state_to_int : InteractionState → ℕ
state_to_int draft = 0
state_to_int ready = 1
state_to_int sent = 2
state_to_int responded = 3
state_to_int closed = 4

-- A number that names no state allows no event, as `closed` does; the coordinator stores none
unfoldable pub int_to_state : ℕ → InteractionState
int_to_state zero = draft
int_to_state (suc zero) = ready
int_to_state (suc (suc zero)) = sent
int_to_state (suc (suc (suc zero))) = responded
int_to_state (suc (suc (suc (suc n)))) = closed

unfoldable pub event_to_int : InteractionEvent → ℕ
event_to_int prepare = 0
event_to_int send = 1
event_to_int receive_reply = 2
event_to_int close = 3

abbrev temp : InteractionState → Interaction
temp state = record {
  interaction_id = lit "temp";
  contact_id = lit "temp";
  opportunity_id = lit "temp";
  state = state;
}

unfoldable pub can_apply_event : InteractionState → InteractionEvent → Bool
unfolding can_transition
can_apply_event state event = can_transition (temp state) event

unfoldable pub apply_event : InteractionState → InteractionEvent → InteractionState
unfolding apply
apply_event state event = (apply (temp state) event).0.state

abbrev pub state_key : Str → Str
state_key interaction_id = lit "ccmcp:interaction:" ++ (interaction_id ++ lit ":state")

abbrev pub receipt_key : Str → Str → Str
receipt_key interaction_id idempotency_key =
    lit "ccmcp:interaction:" ++ (interaction_id ++ (lit ":idem:" ++ idempotency_key))

-- What the script returns
pub record Reply : Type 0 where
  pub outcome : ℕ
  pub before_state : ℕ
  pub after_state : ℕ
  pub transition_index : ℕ

abbrev pub reply : ℕ → ℕ → ℕ → ℕ → Reply
reply outcome before after index = record {
  outcome = outcome;
  before_state = before;
  after_state = after;
  transition_index = index;
}

unfoldable pub outcome_of : ℕ → TransitionOutcome
outcome_of zero = applied
outcome_of (suc zero) = already_applied
outcome_of (suc (suc zero)) = conflict
outcome_of (suc (suc (suc zero))) = not_found
outcome_of (suc (suc (suc (suc n)))) = backend_error

unfoldable pub parse_reply : Reply → TransitionResult
unfolding int_to_state outcome_of
parse_reply r = record {
  outcome = outcome_of r.outcome;
  before_state = int_to_state r.before_state;
  after_state = int_to_state r.after_state;
  transition_index = r.transition_index;
  error_message = [];
}

pub record Request : Type 0 where
  pub interaction_id : Str
  pub event : InteractionEvent
  pub idempotency_key : Str

abbrev pub missing_result : Str → TransitionResult
missing_result interaction_id = record {
  outcome = not_found;
  before_state = draft;
  after_state = draft;
  transition_index = 0;
  error_message = lit "Interaction not found: " ++ interaction_id;
}

abbrev pub refused_result : InteractionState → ℕ → TransitionResult
refused_result state index = record {
  outcome = invalid_transition;
  before_state = state;
  after_state = state;
  transition_index = index;
  error_message = lit "Invalid transition from current state";
}

abbrev pub error_result : Str → TransitionResult
error_result what = record {
  outcome = backend_error;
  before_state = draft;
  after_state = draft;
  transition_index = 0;
  error_message = lit "Redis error: " ++ what;
}

-- `none` is an error, which ends what follows it.
infixl 5 ◌>>=◌
abbrev pub ◌>>=◌ : {A B : Type 0} → Option A → (A → Option B) → Option B
none >>= f = none
some a >>= f = f a

-- `what` is the text of an exception.
module _ (redis : Redis) (what : Str) where
  open redis use {Store, exists, hget, hset}

  -- A field that is read as a number, of any size
  unfoldable pub number : Store → Str → Str → Option ℕ
  unfolding stoi
  number store key field = hget store key field >>= stoi

  -- The script, where the receipt exists. It has its fields wherever the coordinator wrote it; where one
  -- is missing, which this gives as a failure, Lua would cut the reply short
  unfoldable pub answer_again : Store → Str → Option (Store × Reply)
  unfolding number
  answer_again store idem_key = do
    after_state ← number store idem_key (lit "after_state")
    transition_index ← number store idem_key (lit "transition_index")
    some (store, reply 1 after_state after_state transition_index)

  -- The writes of the script
  unfoldable pub write_transition : Store → Str → Str → ℕ → ℕ → ℕ → Store
  write_transition store state_key idem_key event new_state next_index =
      let moved = hset store state_key (lit "state") (to_string new_state) in
      let counted = hset moved state_key (lit "transition_index") (to_string next_index) in
      let after = hset counted idem_key (lit "after_state") (to_string new_state) in
      let indexed = hset after idem_key (lit "transition_index") (to_string next_index) in
      hset indexed idem_key (lit "applied_event") (to_string event)

  -- The script, from the reading of the current state on
  unfoldable pub move : Store → Str → Str → ℕ → ℕ → Option (Store × Reply)
  unfolding number write_transition
  move store state_key idem_key event new_state = do
    current_state ← number store state_key (lit "state")
    current_index ← number store state_key (lit "transition_index")
    some (
      write_transition store state_key idem_key event new_state (current_index + 1),
      reply 0 current_state new_state (current_index + 1),
    )

  -- `kApplyTransitionScript`; an error of the script comes before its first write. A state without its
  -- fields, which the coordinator never stores, fails here, where Lua would go on with nil
  unfoldable pub script : Store → Str → Str → ℕ → ℕ → Option (Store × Reply)
  unfolding answer_again move
  script store state_key idem_key event new_state =
      if not (exists store state_key)
      then some (store, reply 3 0 0 0)
      else if exists store idem_key
      then answer_again store idem_key
      else move store state_key idem_key event new_state

  -- `evalsha`, and the parsing of its result
  unfoldable pub evaluate_script : Store → Request → InteractionState → Store × TransitionResult
  unfolding script event_to_int state_to_int parse_reply
  evaluate_script store req new_state =
      elim (script store (state_key req.interaction_id)
        (receipt_key req.interaction_id req.idempotency_key) (event_to_int req.event)
        (state_to_int new_state)) [
          | none ↦ (store, error_result what)
          | some (after, r) ↦ (after, parse_reply r)
        ]

  -- The answer where the event is not allowed in the state that was read
  unfoldable pub refuse : Store → Str → InteractionState → Store × TransitionResult
  unfolding number
  refuse store state_key state = elim (number store state_key (lit "transition_index")) [
    | none ↦ (store, error_result what)
    | some index ↦ (store, refused_result state index)
  ]

  unfoldable pub apply_transition : (ℕ → Store → Store) → Store → Request → Store × TransitionResult
  unfolding number int_to_state can_apply_event apply_event evaluate_script refuse
  apply_transition between store req =
      let key = state_key req.interaction_id in
      if not (exists store key)
      then (store, missing_result req.interaction_id)
      else (let read = between 0 store in
          elim (number read key (lit "state")) [
            | none ↦ (read, error_result what)
            | some state_int ↦
                let state = int_to_state state_int in
                if not (can_apply_event state req.event)
                then refuse read key state
                else evaluate_script (between 1 read) req (apply_event state req.event)
          ])

  unfoldable pub get_state : Store → Str → Option StateInfo
  unfolding number int_to_state
  get_state store interaction_id =
      let key = state_key interaction_id in
      if not (exists store key) then none else do
        state_int ← number store key (lit "state")
        index ← number store key (lit "transition_index")
        some (record { state = int_to_state state_int; transition_index = index })

  unfoldable pub create_interaction : (ℕ → Store → Store) → Store → Str → Str → Str → Store × Bool
  unfolding state_to_int
  create_interaction between store interaction_id contact_id opportunity_id =
      let key = state_key interaction_id in
      if exists store key
      then (store, false)
      else (let drafted =
            hset (between 0 store) key (lit "state") (to_string (state_to_int draft)) in
          let counted = hset (between 1 drafted) key (lit "transition_index") (lit "0") in
          let contacted = hset (between 2 counted) key (lit "contact_id") contact_id in
          (hset (between 3 contacted) key (lit "opportunity_id") opportunity_id, true))

-- No other client is active.
abbrev pub alone : {A : Type 0} → ℕ → A → A
alone n store = store
