-- ===== src/Smq/Held/Answers.antt =====
-- What a response does to the message that it answers, by its status code: handle_response of
-- smqueue/smqueue.cpp.
use smqueue.Prelude.{ℕ, ◌+◌, ◌<◌, ◌≤◌, ◌≡◌, ◌≢◌, ◌⊎◌, none, Res, ok, Holds}
use smqueue.Sip.{Sip}
use smqueue.State.{SmState, request_destination_imsi, timeout}
use smqueue.Message.{Msg, set_msg_state}
use smqueue.Queue.{get}
use smqueue.Smq.{World, Smq}
use smqueue.Smq.Originate.Bounce.{Bounced}
use smqueue.Smq.Response.{
  in_place, Kind, interim, success, redirect, client_error, server_error, reject, unknown,
  resend_timeout,
}

abbrev Within : ℕ → ℕ → ℕ → Type 0
Within low high code = (low ≤ code) × (code < high)

-- The codes that ask for patience: the first digit is 1 or 5, or the recipient is not there or is busy.
abbrev pub IsPatient : ℕ → Type 0
IsPatient code = Within 100 200 code ⊎ Within 500 600 code ⊎ (code ≡ 480) ⊎ (code ≡ 486)

abbrev pub put_off : World → Msg → Msg
put_off w m = record m { next_action_time = w.now + resend_timeout w.config }

abbrev pub look_up_again : World → Msg → Msg
look_up_again w m = record m {
  next_action_time = w.now + timeout m.state request_destination_imsi;
  state = request_destination_imsi;
}

-- A bounce was tried, and the answered message got the state that this gives.
abbrev pub Refused : World → Smq → ℕ → Smq → Type 0
Refused w s k t =
    (r : Smq) × (st : SmState) × Bounced s (r, st)
    × (t ≡ in_place r k (λ m. set_msg_state w.now m st))

-- What becomes of the message in node `k`, by the status code.
abbrev pub Answered : World → Smq → ℕ → ℕ → Res Smq → Type 0
Answered w s k code r =
    (IsPatient code × (r ≡ ok (in_place s k (put_off w))))
    ⊎ ((Within 300 400 code ⊎ Within 600 700 code) × (r ≡ ok (in_place s k (look_up_again w))))
    ⊎ (Within 200 300 code × Holds (λ t. get k t.queue ≡ none) r)
    ⊎ (Within 400 500 code × (code ≢ 480) × (code ≢ 486) × Holds (Refused w s k) r)
    ⊎ (((code < 100) ⊎ (700 ≤ code)) × (r ≡ ok s))

-- Each range of codes goes to its case of the switch.
unfoldable IsCase : ℕ → Kind → Type 0
IsCase code interim = Within 100 200 code
IsCase code success = Within 200 300 code
IsCase code redirect = Within 300 400 code
IsCase code client_error = Within 400 500 code
IsCase code server_error = Within 500 600 code
IsCase code reject = Within 600 700 code
IsCase code unknown = (code < 100) ⊎ (700 ≤ code)
