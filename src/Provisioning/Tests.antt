-- ===== src/Provisioning/Tests.antt =====
-- Requests, run.
use matrix_bridge_discord.Prelude.{
  [], ◌∷◌, String, true, false, some, ◌≡◌, ◌⊎◌, ◌↔◌, refl, arith, err, if◌then◌else◌, ◌==◌,
}
use matrix_bridge_discord.HashMap
use matrix_bridge_discord.HashMap.{string_eq}
use matrix_bridge_discord.Provisioning.{
  applied, expired, timed_out, sending, timing_out, returned, empty, dropped, decided, Request,
  ProvisioningCoordinator, ask, deliver, poll, asks, marks, step, mark_approval,
  has_pending_request,
}
use matrix_bridge_discord.Provisioning.Senders.{IsValid, inbox_of}
use matrix_bridge_discord.Provisioning.Answers.{step-IsValid}
use matrix_bridge_discord.Provisioning.Decisions.{
  step-decided, mark_approval_twice, deliver-dropped, progress_of, mark_approval-timing_out,
}

abbrev idle : ProvisioningCoordinator
idle = record { timeout = 300; pending = []; requests = [] }

idle-IsValid : IsValid idle
unfolding HashMap.get
idle-IsValid = record {
  owned = λ channel n h. ground arith;
  held = λ n r h e. ground arith;
  told = λ n r h. ground arith;
}

-- Two requests for channel `c`, of which the second has its sender in the map.
abbrev busy : ProvisioningCoordinator
busy = record {
  timeout = 300;
  pending = ("c", 1) ∷ [];
  requests =
      record { channel = "c"; progress = sending; inbox = dropped }
      ∷ record { channel = "c"; progress = sending; inbox = empty }
      ∷ [];
}

busy-IsValid : IsValid busy
unfolding step ask HashMap.insert HashMap.get HashMap.remove
busy-IsValid =
    step-IsValid (step idle (asks "c")) (asks "c") (step-IsValid idle (asks "c") idle-IsValid)

step-IsValid_example : IsValid (step busy (marks "c" true))
step-IsValid_example = step-IsValid busy (marks "c" true) busy-IsValid

approved : inbox_of (step busy (marks "c" true)) 1 ≡ some (decided true)
unfolding step mark_approval HashMap.get
approved = refl

step-decided_example :
    (inbox_of busy 1 ≡ some (decided true))
    ⊎ ((channel : String) × (marks "c" true ≡ marks channel true)
        × (HashMap.get channel busy.pending ≡ some 1))
step-decided_example = step-decided 1 true busy (marks "c" true) approved

mark_approval_twice_example :
    (((mark_approval busy "c" true).0 ≡ applied) ↔ (has_pending_request busy "c" ≡ true))
    × (has_pending_request (mark_approval busy "c" true).1 "d"
        ≡ (if "c" == "d" then false else has_pending_request busy "d"))
    × ((mark_approval (mark_approval busy "c" true).1 "c" false).0 ≡ expired)
mark_approval_twice_example = mark_approval_twice busy "c" "d" true false

waits : HashMap.get "c" busy.pending ≡ some 1
unfolding HashMap.get
waits = refl

deliver-dropped_example :
    (inbox_of (deliver busy 0 false) 1 ≡ some dropped)
    × (has_pending_request (deliver busy 0 false) "c" ≡ false)
deliver-dropped_example =
    deliver-dropped busy 0 1 (record { channel = "c"; progress = sending; inbox = dropped })
      (record { channel = "c"; progress = sending; inbox = empty }) refl refl waits refl

abbrev late : Request
late = record { channel = "c"; progress = timing_out; inbox = empty }

abbrev timing : ProvisioningCoordinator
timing = record { timeout = 300; pending = ("c", 0) ∷ []; requests = late ∷ [] }

waits_late : HashMap.get "c" timing.pending ≡ some 0
unfolding HashMap.get
waits_late = refl

mark_approval-timing_out_example :
    ((mark_approval timing "c" true).0 ≡ applied)
    × (inbox_of (mark_approval timing "c" true).1 0 ≡ some (decided true))
    × (progress_of (poll (mark_approval timing "c" true).1 0 true) 0
        ≡ some (returned (err timed_out)))
mark_approval-timing_out_example =
    mark_approval-timing_out timing 0 late true true refl refl waits_late
