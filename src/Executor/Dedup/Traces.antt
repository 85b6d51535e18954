-- ===== src/Executor/Dedup/Traces.antt =====
-- executor.rs: the deduplication over every interleaving of the tasks that use it. A trace is the
-- sequence of critical sections, in the order in which they got the lock.
use hub_kubernetes_agent.Prelude.{
  ℕ, suc, ◌≤◌, ◌≡◌, ◌≢◌, refl, sym, subst, String, some, List, [], ◌∷◌, Bool, true, false, not,
  ◌||◌, ◌&&◌, if◌then◌else◌, contains, filter, lookup, is_some, is_none, Bool-cases, inl, inr,
  arith, eq_iff, eq_refl, ◌==◌,
}
use hub_kubernetes_agent.Model.Result.{Command, CommandResult}
use hub_kubernetes_agent.Executor.Dedup.{CommandDedupState, dedup_begin, dedup_finish}

-- A task enters with a command, or leaves with a result.
pub data Section : Type 0 where
  enter : ℕ → Command → Section
  leave : CommandResult → Section

-- The id is known: it runs, or it has finished.
abbrev is_known : CommandDedupState → String → Bool
is_known state id = is_some (lookup id state.completed) || contains state.running id

-- The state after a trace.
pub run : CommandDedupState → List Section → CommandDedupState
run state [] = state
run state (enter now cmd ∷ rest) = run (dedup_begin now cmd state).1 rest
run state (leave result ∷ rest) = run (dedup_finish result state) rest

-- How often the trace lets a command of this id run.
pub starts : String → CommandDedupState → List Section → ℕ
starts id state [] = 0
starts id state (enter now cmd ∷ rest) =
    let later = starts id (dedup_begin now cmd state).1 rest in
    if (cmd.id == id) && is_none (dedup_begin now cmd state).0 then suc later else later
starts id state (leave result ∷ rest) = starts id (dedup_finish result state) rest

contains-filter_ne :
    (xs : List String) (out id : String)
    → contains xs id ≡ true
    → out ≢ id
    → contains (filter (λ x. not (x == out)) xs) id ≡ true
contains-filter_ne [] out id h k = h
contains-filter_ne (x ∷ xs) out id h k =
    ground (arith, contains-filter_ne xs out id, eq_iff x out, eq_iff x id)

is_known-enter :
    (state : CommandDedupState) (id : String) (now : ℕ) (cmd : Command)
    → is_known state id ≡ true
    → is_known (dedup_begin now cmd state).1 id ≡ true
unfolding dedup_begin
is_known-enter state id now cmd h = ground arith

is_known-leave :
    (state : CommandDedupState) (id : String) (result : CommandResult)
    → is_known state id ≡ true
    → is_known (dedup_finish result state) id ≡ true
unfolding dedup_finish
is_known-leave state id result h =
    ground
      (arith, contains-filter_ne state.running result.command_id id, eq_iff result.command_id id)

begin-completed :
    (id : String) (r : CommandResult) (now : ℕ) (cmd : Command) (state : CommandDedupState)
    → lookup id state.completed ≡ some r
    → lookup id (dedup_begin now cmd state).1.completed ≡ some r
unfolding dedup_begin
begin-completed id r now cmd state h = ground arith

finish-completed :
    (id : String) (r result : CommandResult) (state : CommandDedupState)
    → result.command_id ≢ id
    → lookup id state.completed ≡ some r
    → lookup id (dedup_finish result state).completed ≡ some r
unfolding dedup_finish
finish-completed id r result state ne h = ground (arith, eq_iff result.command_id id)

pub finish_found :
    (result : CommandResult) (state : CommandDedupState)
    → lookup result.command_id (dedup_finish result state).completed ≡ some result
unfolding dedup_finish
finish_found result state = rw (eq_refl result.command_id)

begin_found :
    (now : ℕ) (cmd : Command) (state : CommandDedupState) (r : CommandResult)
    → lookup cmd.id state.completed ≡ some r
    → dedup_begin now cmd state ≡ (some r, state)
unfolding dedup_begin
begin_found now cmd state r h = rw (h, dedup_begin)

-- A known id is never let in again.
known_refused :
    (state : CommandDedupState) (id : String) (now : ℕ) (cmd : Command)
    → is_known state id ≡ true
    → cmd.id ≡ id
    → is_none (dedup_begin now cmd state).0 ≡ false
unfolding dedup_begin
known_refused state id now cmd h e =
    let known : is_known state cmd.id ≡ true = rw (← e) at h in ground arith

let_in_known :
    (state : CommandDedupState) (now : ℕ) (cmd : Command)
    → is_none (dedup_begin now cmd state).0 ≡ true
    → is_known (dedup_begin now cmd state).1 cmd.id ≡ true
unfolding dedup_begin
let_in_known state now cmd h = ground (arith, eq_refl cmd.id)

starts_known :
    (id : String) (state : CommandDedupState) (trace : List Section)
    → is_known state id ≡ true
    → starts id state trace ≡ 0
unfolding starts
starts_known id state [] h = refl
starts_known id state (enter now cmd ∷ rest) h = ground (
  arith,
  starts_known id (dedup_begin now cmd state).1 rest (is_known-enter state id now cmd h),
  known_refused state id now cmd h,
  eq_iff cmd.id id,
)
starts_known id state (leave result ∷ rest) h =
    starts_known id (dedup_finish result state) rest (is_known-leave state id result h)

-- Whatever tasks enter and leave, in whatever order, and whatever had happened before, a command id
-- is let run at most once.
pub starts_at_most_once :
    (id : String) (state : CommandDedupState) (trace : List Section) → starts id state trace ≤ 1
unfolding starts
starts_at_most_once id state [] = omega arith
starts_at_most_once id state (enter now cmd ∷ rest) =
    elim (Bool-cases ((cmd.id == id) && is_none (dedup_begin now cmd state).0)) [
      | inr other ↦ rw other (starts_at_most_once id (dedup_begin now cmd state).1 rest)
      | inl started ↦
          let same : cmd.id ≡ id = (eq_iff cmd.id id).0 (ground arith) in
          let known : is_known (dedup_begin now cmd state).1 id ≡ true =
            subst (λ x. is_known (dedup_begin now cmd state).1 x ≡ true) same
              (let_in_known state now cmd (ground arith)) in
          rw (started, starts_known id (dedup_begin now cmd state).1 rest known) (omega arith)
    ]
starts_at_most_once id state (leave result ∷ rest) =
    starts_at_most_once id (dedup_finish result state) rest

-- No task leaves with a result of this id.
abbrev pub NoLeave : String → List Section → Type 0
NoLeave id [] = Unit
NoLeave id (enter now cmd ∷ rest) = NoLeave id rest
NoLeave id (leave result ∷ rest) = (result.command_id ≢ id) × NoLeave id rest

run-completed :
    (id : String) (r : CommandResult) (state : CommandDedupState) (trace : List Section)
    → NoLeave id trace
    → lookup id state.completed ≡ some r
    → lookup id (run state trace).completed ≡ some r
unfolding run
run-completed id r state [] n h = h
run-completed id r state (enter now cmd ∷ rest) n h =
    run-completed id r (dedup_begin now cmd state).1 rest n (begin-completed id r now cmd state h)
run-completed id r state (leave result ∷ rest) (ne, n) h =
    run-completed id r (dedup_finish result state) rest n (finish-completed id r result state ne h)

-- A command that is sent again after it has finished gets the very result it finished with, if no
-- other task has finished under its id since.
pub repeat_is_answered :
    (result : CommandResult) (state : CommandDedupState) (trace : List Section) (now : ℕ)
    (cmd : Command)
    → cmd.id ≡ result.command_id
    → NoLeave result.command_id trace
    → dedup_begin now cmd (run (dedup_finish result state) trace)
      ≡ (some result, run (dedup_finish result state) trace)
repeat_is_answered result state trace now cmd same n =
    let found =
      run-completed result.command_id result (dedup_finish result state) trace n
        (finish_found result state) in
    begin_found now cmd (run (dedup_finish result state) trace) result (
      subst (λ x. lookup x (run (dedup_finish result state) trace).completed ≡ some result)
        (sym same) found)
