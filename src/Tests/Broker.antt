-- ===== src/Tests/Broker.antt =====
-- The theorems on the broker's client, at concrete states.
use trash.Broker.Racing.{run, step, advance, new_client, callers}
use trash.Broker.Racing.Laws.{
  is_some, some_opening, some_returned, all_returned, are_settled, run_lem,
}
use trash.Prelude.{ℕ, List, ◌≤◌, ◌||◌, none, ◌≡◌, refl, inl, true, false, [], ◌∷◌, codes}
use trash.Exceptions.{type_error}
use trash.Runtime.Sample.{sample}
use trash.World.{SendMessage, World, ok, err}
use trash.Broker.{send}
use trash.Broker.Laws.{send_all, send_all-sent, send_stuck}
use trash.Notifications.{message, notification_email, signed_up, email_changed}
use trash.Tests.Worlds.{ann_world, ann_email, token}

abbrev hello : SendMessage
unfolding message
hello = message (codes "x.io") signed_up (record { email = ann_email; token = token })

abbrev changed : SendMessage
unfolding message
changed = message (codes "x.io") email_changed (record { email = ann_email; token = token })

send_all-sent_example :
    ((send_all notification_email (hello ∷ changed ∷ []) ann_world).0 ≡ ok tt)
    × ((send_all notification_email (hello ∷ changed ∷ []) ann_world).1.broker.sent
        ≡ (notification_email, hello) ∷ (notification_email, changed) ∷ [])
send_all-sent_example =
    send_all-sent notification_email (hello ∷ changed ∷ []) ann_world refl (inl refl)

abbrev half_open : World
half_open = record ann_world { broker = record ann_world.broker { connected = true } }

abbrev failing : World
failing = record ann_world { faults = false ∷ true ∷ [] }

send_stuck_example :
    send notification_email changed
      (record (send notification_email hello failing).1 { faults = [] })
    ≡ (err type_error, record (send notification_email hello failing).1 { faults = [] })
send_stuck_example =
    send_stuck notification_email notification_email hello changed [] [] failing refl refl refl

-- The second of two callers returns while the first still waits for the channel.
early_return : (run (0 ∷ 0 ∷ 1 ∷ []) new_client (callers 2)).0.channel ≡ none
unfolding run step advance
early_return = refl

-- Two callers that both find no connection make two.
two_connections : (run (0 ∷ 1 ∷ 0 ∷ 1 ∷ 0 ∷ 1 ∷ []) new_client (callers 2)).0.made ≡ 2
unfolding run step advance
two_connections = refl

-- The first caller is done before the second begins.
run_lem_example :
    let after = run (0 ∷ 0 ∷ 0 ∷ []) new_client (callers 2) in
    (after.0.made ≤ 2)
    × (some_returned after.1 ≡ true → (is_some after.0.channel || some_opening after.1) ≡ true)
    × (1 ≤ 2 → all_returned after.1 ≡ true → is_some after.0.channel ≡ true)
    × ((later : List ℕ)
        → is_some after.0.connection ≡ true
        → are_settled after.1 ≡ true
        → (run later after.0 after.1).0 ≡ after.0)
    × ((early : List ℕ) × (some_returned (run early new_client (callers 4)).1 ≡ true)
        × ((run early new_client (callers 4)).0.channel ≡ none))
run_lem_example = run_lem 2 (0 ∷ 0 ∷ 0 ∷ [])
