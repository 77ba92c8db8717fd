-- ===== src/Broker/Publisher/Races/Examples.antt =====
-- Tags and numbers at concrete inputs.
use rabbitmq_kit_go.Prelude.{
  ◌≡◌, refl, ◌⊎◌, true, false, none, some, List, [], ◌∷◌, ◌++◌, get_elem?, arith,
}
use rabbitmq_kit_go.Broker.Publisher.{Publisher, View, new_publisher, register, unregister, confirm}
use rabbitmq_kit_go.Broker.Publisher.Channels.{ok, open_, closed, find, remove}
use rabbitmq_kit_go.Broker.Publisher.Sound.{Waiting}
use rabbitmq_kit_go.Broker.Publisher.Steps.{IsSound, Step, registered, gave_up, confirmed}
use rabbitmq_kit_go.Broker.Publisher.Tags.{
  Traffic, InStep, run, run-InStep, answer_reaches, new_publisher-InStep,
}
use rabbitmq_kit_go.Broker.Publisher.Races.{crossed, failed_send_shifts}

abbrev view : View
view = record { closed = false; channel = 7; publisher_confirms = true }

abbrev fresh : Traffic
fresh = record { publisher = new_publisher view; sent = [] }

abbrev steps : List Step
steps = registered ∷ registered ∷ confirmed 2 true ∷ registered ∷ gave_up 3 ∷ []

run-InStep_example : (t' : Traffic) × (run steps fresh ≡ ok t') × InStep t'
run-InStep_example = run-InStep steps fresh (new_publisher-InStep view) (omega arith)

-- Two messages wait.
abbrev busy : Traffic
busy = record { publisher = (register (register (new_publisher view)).1).1; sent = 0 ∷ 1 ∷ [] }

busy-InStep : InStep busy
unfolding register new_publisher IsSound Waiting remove
busy-InStep = record {
  sound = ((refl, (refl, tt), (refl, tt, tt)));
  numbered = (omega arith, refl, (omega arith, refl, tt));
  counted = refl;
}

answer_reaches_example :
    (p' : Publisher) × (confirm 2 true busy.publisher ≡ ok p')
    × ((p' ≡ busy.publisher) ⊎ (get_elem? p'.results 1 ≡ some (closed (some true))))
    × (get_elem? p'.results 0 ≡ get_elem? busy.publisher.results 0)
    × (find 2 p'.pending ≡ none)
answer_reaches_example = answer_reaches busy 1 1 0 true busy-InStep refl refl

crossed_example :
    let ((tag1, chan1), p1) = register busy.publisher in
    let ((tag2, chan2), p2) = register p1 in
    (get_elem? (busy.sent ++ chan2 ∷ chan1 ∷ []) 2 ≡ some chan2)
    × ((p' : Publisher) × (confirm 3 true p2 ≡ ok p')
        × (get_elem? p'.results chan1 ≡ some (closed (some true)))
        × (get_elem? p'.results chan2 ≡ some (open_ none)))
crossed_example = crossed busy true busy-InStep (omega arith)

failed_send_shifts_example :
    let ((tag1, chan1), p1) = register busy.publisher in
    let ((tag2, chan2), p2) = register (unregister tag1 p1) in
    (get_elem? (busy.sent ++ chan2 ∷ []) 2 ≡ some chan2)
    × (confirm 3 true p2 ≡ ok p2)
    × (get_elem? p2.results chan2 ≡ some (open_ none))
failed_send_shifts_example = failed_send_shifts busy true busy-InStep (omega arith)
