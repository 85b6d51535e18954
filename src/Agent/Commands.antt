-- ===== src/Agent/Commands.antt =====
-- main.rs: the command loop. A poll of the Hub, the execution of a command and the acknowledgement
-- of its result are parameters; the exit of the process ends the loop.
use hub_kubernetes_agent.Prelude.{
  ℕ, zero, suc, ◌≡◌, refl, sym, subst, String, List, [], ◌∷◌, ◌++◌, map, Bool, true, false, ◌&&◌,
  ◌==◌, if◌then◌else◌, unwrap_or, All, Result, ok, err, Bool-cases, inl, inr,
}
use hub_kubernetes_agent.Model.Result.{Command, CommandResult}

unfoldable pub should_restart_after_ack : CommandResult → Bool
should_restart_after_ack result =
    (result.status == "ok") && unwrap_or result.restart_requested false

pub data Control : Type 0 where
  running exited : Control

pub data LoopEvent : Type 0 where
  acknowledged : CommandResult → LoopEvent
  -- the acknowledgement of a result failed
  ack_failed : CommandResult → String → LoopEvent
  poll_failed : String → LoopEvent

-- What a part of the loop has logged, whether the process goes on, and the state of the outside.
pub record Ran (S : Type 0) : Type 0 where
  pub events : List LoopEvent
  pub control : Control
  pub state : S

-- The commands of a batch, and the result of each; the commands are left where the process exits.
module _ {S : Type 0} (execute : Command → S → CommandResult × S)
    (ack_command : CommandResult → S → Result String (Unit {0}) × S) where
  unfoldable pub ack_event : CommandResult → Result String (Unit {0}) → LoopEvent
  ack_event result (ok done) = acknowledged result
  ack_event result (err e) = ack_failed result e

  unfoldable pub run_batch : List Command → S → Ran S
  unfolding ack_event should_restart_after_ack
  run_batch [] s = record { events = []; control = running; state = s }
  run_batch (cmd ∷ rest) s =
      let executed = execute cmd s in
      let acked = ack_command executed.0 executed.1 in
      let event = ack_event executed.0 acked.0 in
      let later = run_batch rest acked.1 in
      if should_restart_after_ack executed.0
      then record { events = event ∷ []; control = exited; state = acked.1 }
      else record later { events = event ∷ later.events }

  module _ (poll_commands : S → Result String (List Command) × S) (sleep : S → S) where
    -- One turn of the loop.
    unfoldable pub poll_round : S → Ran S
    unfolding run_batch
    poll_round s =
        let polled = poll_commands s in
        elim polled.0 [
          | ok batch ↦ run_batch batch polled.1
          | err e ↦ record {
            events = poll_failed e ∷ [];
            control = running;
            state = sleep polled.1;
          }
        ]

    -- So many turns.
    unfoldable pub command_loop : ℕ → S → Ran S
    unfolding poll_round
    command_loop zero s = record { events = []; control = running; state = s }
    command_loop (suc rounds) s =
        let once = poll_round s in
        let later = command_loop rounds once.state in
        elim once.control [
          | exited ↦ once
          | running ↦ record later { events = once.events ++ later.events }
        ]

-- The ids of the results that were sent to the Hub, or tried to.
abbrev pub answered_ids : List LoopEvent → List String
answered_ids [] = []
answered_ids (acknowledged result ∷ rest) = result.command_id ∷ answered_ids rest
answered_ids (ack_failed result e ∷ rest) = result.command_id ∷ answered_ids rest
answered_ids (poll_failed e ∷ rest) = answered_ids rest

module _ {S : Type 0} (execute : Command → S → CommandResult × S)
    (ack_command : CommandResult → S → Result String (Unit {0}) × S) where
  -- Commands that are all executed and acknowledged, one after the other, whatever their results: the
  -- results, what is logged, and the state after it.
  abbrev pub results_of : List Command → S → List CommandResult
  results_of [] s = []
  results_of (cmd ∷ rest) s =
      let executed = execute cmd s in
      executed.0 ∷ results_of rest (ack_command executed.0 executed.1).1

  abbrev pub logged_by : List Command → S → List LoopEvent
  logged_by [] s = []
  logged_by (cmd ∷ rest) s =
      let executed = execute cmd s in
      let acked = ack_command executed.0 executed.1 in
      ack_event execute ack_command executed.0 acked.0 ∷ logged_by rest acked.1

  abbrev pub state_after : List Command → S → S
  state_after [] s = s
  state_after (cmd ∷ rest) s =
      let executed = execute cmd s in state_after rest (ack_command executed.0 executed.1).1

  abbrev pub all_ran : List Command → S → Control → Ran S
  all_ran batch s control = record {
    events = logged_by batch s;
    control = control;
    state = state_after batch s;
  }

  -- No result asks for a restart.
  abbrev pub NoneRestarts : List Command → S → Type 0
  NoneRestarts batch s = All (λ r. should_restart_after_ack r ≡ false) (results_of batch s)

  -- The end of a batch, with the ids that are answered: no result of it asks for a restart, and all
  -- commands have run; or a result is the first that does, and the process exits after its command.
  pub data BatchEnd : List Command → S → List String → Ran S → Type 0 where
    finished :
        (batch : List Command) (s : S)
        → NoneRestarts batch s
        → BatchEnd batch s (map (λ (c : Command). c.id) batch) (all_ran batch s running)
    restarted :
        (before : List Command) (cmd : Command) (left : List Command) (s : S)
        → NoneRestarts before s
        → should_restart_after_ack (execute cmd (state_after before s)).0 ≡ true
        → BatchEnd
            (before ++ (cmd ∷ left))
            s
            (map (λ (c : Command). c.id) (before ++ (cmd ∷ [])))
            (all_ran (before ++ (cmd ∷ [])) s exited)

  BatchEnd-next :
      (cmd : Command) (s : S)
      → let executed = execute cmd s in
        let acked = ack_command executed.0 executed.1 in
        should_restart_after_ack executed.0 ≡ false
        → (batch : List Command) (ids : List String) (later : Ran S)
        → BatchEnd batch acked.1 ids later
        → BatchEnd (cmd ∷ batch) s (cmd.id ∷ ids) (record later {
          events = ack_event execute ack_command executed.0 acked.0 ∷ later.events;
        })
  BatchEnd-next cmd s goes_on _ _ _ (finished batch _ quiet) =
      finished (cmd ∷ batch) s (goes_on, quiet)
  BatchEnd-next cmd s goes_on _ _ _ (restarted before last left _ quiet asked) =
      restarted (cmd ∷ before) last left s (goes_on, quiet) asked

  answered_ids-ack_event :
      (result : CommandResult) (outcome : Result String (Unit {0})) (events : List LoopEvent)
      → answered_ids (ack_event execute ack_command result outcome ∷ events)
        ≡ result.command_id ∷ answered_ids events
  unfolding ack_event
  answered_ids-ack_event result (ok done) events = refl
  answered_ids-ack_event result (err e) events = refl

  -- A batch runs its commands in their order, each in the state that the acknowledgement before it
  -- leaves, whatever acknowledgements fail: all of them, if no result asks for a restart; else those up
  -- to the first whose result does, and then the process exits. Where every command is answered under
  -- its id, the ids that are answered are those of these commands, each once and in their order.
  pub run_batch-BatchEnd :
      (batch : List Command) (s : S)
      → ((c : Command) (t : S) → (execute c t).0.command_id ≡ c.id)
      → let ran = run_batch execute ack_command batch s in
        BatchEnd batch s (answered_ids ran.events) ran
  unfolding run_batch
  run_batch-BatchEnd [] s answers = finished [] s tt
  run_batch-BatchEnd (cmd ∷ rest) s answers =
      let executed = execute cmd s in
      let acked = ack_command executed.0 executed.1 in
      let event = ack_event execute ack_command executed.0 acked.0 in
      elim (Bool-cases (should_restart_after_ack executed.0)) [
        | inl asked ↦
            let ran = all_ran (cmd ∷ []) s exited in
            rw (asked, answered_ids-ack_event executed.0 acked.0 [])
              (subst (λ id. BatchEnd (cmd ∷ rest) s (id ∷ []) ran) (sym (answers cmd s))
                (restarted [] cmd rest s tt asked))
        | inr goes_on ↦
            let later = run_batch execute ack_command rest acked.1 in
            rw (goes_on, answered_ids-ack_event executed.0 acked.0 later.events)
              (subst
                (λ id.
                  BatchEnd (cmd ∷ rest) s (id ∷ answered_ids later.events)
                    (record later { events = event ∷ later.events }))
                (sym (answers cmd s))
                (BatchEnd-next cmd s goes_on rest (answered_ids later.events) later
                  (run_batch-BatchEnd rest acked.1 answers)))
      ]
