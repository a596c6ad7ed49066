-- ===== src/Provisioning.antt =====
-- src/bridge/provisioning.rs: requests to bridge a channel, which wait for an answer on Discord. A
-- request has a number, so that the sender of one is told from the sender of another.
pub mod Senders
pub mod Answers
pub mod Decisions
mod Tests
use Prim.Native.String
use matrix_bridge_discord.Prelude.{
  ℕ, ◌+◌, ◌/◌, ◌-◌, suc, List, [], ◌∷◌, String, Bool, true, false, Option, none, some, Result, ok,
  err, leb, if◌then◌else◌, is_some, length, ◌++◌,
}
use matrix_bridge_discord.HashMap
use matrix_bridge_discord.HashMap.{string_eq, HasDistinctKeys}

abbrev pub default_permission_timeout : ℕ
default_permission_timeout = 300

pub data ApprovalResponseStatus : Type 0 where
  applied expired : ApprovalResponseStatus

pub data ProvisioningError : Type 0 where
  timed_out declined delivery_failed cancelled : ProvisioningError

unfoldable pub message_of : ProvisioningError → String
message_of timed_out = "Timed out waiting for a response from the Discord owners."
message_of declined = "The bridge has been declined by the Discord guild."
message_of delivery_failed = "Could not send bridge permission request to Discord."
message_of cancelled = "Bridge approval request was cancelled."

-- Where a request is: its prompt is being sent, it waits for the decision, its time is over and its
-- receiver gone but the map not locked yet, or it has returned.
pub data Progress : Type 0 where
  sending waiting timing_out : Progress
  returned : Result ProvisioningError (Unit {0}) → Progress

-- What was done with the sender of a request, which is what its receiver finds while there is one:
-- nothing yet, a decision was sent, or it was dropped.
pub data Inbox : Type 0 where
  empty dropped : Inbox
  decided : Bool → Inbox

pub record Request : Type 0 where
  pub channel : String
  pub progress : Progress
  pub inbox : Inbox

-- `pending` holds the sender of a request for each channel; `requests` numbers all of them.
pub record ProvisioningCoordinator : Type 0 where
  pub timeout : ℕ
  pub pending : List (String × ℕ)
  pub requests : List Request

unfoldable pub new : ℕ → ProvisioningCoordinator
new timeout = record { timeout = timeout; pending = []; requests = [] }

-- `self.timeout.as_secs().max(60).div_ceil(60)`
unfoldable pub timeout_minutes : ℕ → ℕ
timeout_minutes seconds = ((if leb 60 seconds then seconds else 60) + 59) / 60

unfoldable pub prompt : (ℕ → String) → String → ℕ → String
prompt to_string requestor seconds = String.◌++◌ requestor (
    String.◌++◌
      " on matrix would like to bridge this channel. Someone with permission to manage webhooks please reply with `!matrix approve` or `!matrix deny` in the next "
      (String.◌++◌ (to_string (timeout_minutes seconds)) " minutes."))

abbrev pub nth : List Request → ℕ → Option Request
nth [] n = none
nth (r ∷ rs) ℕ.zero = some r
nth (r ∷ rs) (ℕ.suc n) = nth rs n

abbrev pub modify : (Request → Request) → ℕ → List Request → List Request
modify f n [] = []
modify f ℕ.zero (r ∷ rs) = f r ∷ rs
modify f (ℕ.suc n) (r ∷ rs) = r ∷ modify f n rs

-- What the receiver finds of the sender that was in the map.
abbrev pub settle : Inbox → Option ℕ → List Request → List Request
settle inbox none requests = requests
settle inbox (some n) requests = modify (λ r. record r { inbox = inbox }) n requests

abbrev pub return_with : Result ProvisioningError (Unit {0}) → ℕ → List Request → List Request
return_with result n requests = modify (λ r. record r { progress = returned result }) n requests

-- `ask_bridge_permission` up to the call of Discord; the request's number is the list's length.
unfoldable pub ask : ProvisioningCoordinator → String → ProvisioningCoordinator
ask c channel = record c {
  pending = HashMap.insert channel (length c.requests) c.pending;
  requests =
      settle dropped (HashMap.get channel c.pending) c.requests
      ++ record { channel = channel; progress = sending; inbox = empty } ∷ [];
}

-- The sender that a channel has is removed from the map and dropped.
abbrev pub forget : ProvisioningCoordinator → String → ProvisioningCoordinator
forget c channel = record c {
  pending = HashMap.remove channel c.pending;
  requests = settle dropped (HashMap.get channel c.pending) c.requests;
}

abbrev pub return_request :
    ProvisioningCoordinator → ℕ → Result ProvisioningError (Unit {0}) → ProvisioningCoordinator
return_request c n result = record c { requests = return_with result n c.requests }

-- Discord's answer to the prompt of a request that is being sent.
abbrev pub delivered_at :
    ProvisioningCoordinator → ℕ → Request → Progress → Bool → ProvisioningCoordinator
delivered_at c n r sending true = record c {
  requests = modify (λ q. record q { progress = waiting }) n c.requests;
}
delivered_at c n r sending false = return_request (forget c r.channel) n (err delivery_failed)
delivered_at c n r waiting sent = c
delivered_at c n r timing_out sent = c
delivered_at c n r (returned _) sent = c

-- The result of the receiver that is awaited under the timeout, the decision first. After the
-- timeout the request goes on to lock the map, and others may do so before it.
abbrev pub awaited_at :
    ProvisioningCoordinator → ℕ → Request → Inbox → Bool → ProvisioningCoordinator
awaited_at c n r (decided true) elapsed = return_request c n (ok tt)
awaited_at c n r (decided false) elapsed = return_request c n (err declined)
awaited_at c n r dropped elapsed = return_request c n (err cancelled)
awaited_at c n r empty true = record c {
  requests = modify (λ q. record q { progress = timing_out }) n c.requests;
}
awaited_at c n r empty false = c

abbrev pub polled_at :
    ProvisioningCoordinator → ℕ → Request → Progress → Bool → ProvisioningCoordinator
polled_at c n r sending elapsed = c
polled_at c n r waiting elapsed = awaited_at c n r r.inbox elapsed
polled_at c n r timing_out elapsed = return_request (forget c r.channel) n (err timed_out)
polled_at c n r (returned _) elapsed = c

abbrev pub with_request :
    ProvisioningCoordinator
    → Option Request
    → (Request → ProvisioningCoordinator)
    → ProvisioningCoordinator
with_request c none f = c
with_request c (some r) f = f r

unfoldable pub deliver : ProvisioningCoordinator → ℕ → Bool → ProvisioningCoordinator
deliver c n sent = with_request c (nth c.requests n) (λ r. delivered_at c n r r.progress sent)

unfoldable pub poll : ProvisioningCoordinator → ℕ → Bool → ProvisioningCoordinator
poll c n elapsed = with_request c (nth c.requests n) (λ r. polled_at c n r r.progress elapsed)

unfoldable pub has_pending_request : ProvisioningCoordinator → String → Bool
has_pending_request c channel = is_some (HashMap.get channel c.pending)

unfoldable pub mark_approval :
    ProvisioningCoordinator → String → Bool → ApprovalResponseStatus × ProvisioningCoordinator
mark_approval c channel allow = (
  if is_some (HashMap.get channel c.pending) then applied else expired,
  record c {
    pending = HashMap.remove channel c.pending;
    requests = settle (decided allow) (HashMap.get channel c.pending) c.requests;
  },
)

-- What can happen next, in any order: each locks the map at most once.
pub data Event : Type 0 where
  asks : String → Event
  delivers : ℕ → Bool → Event
  polls : ℕ → Bool → Event
  marks : String → Bool → Event

unfoldable pub step : ProvisioningCoordinator → Event → ProvisioningCoordinator
step c (asks channel) = ask c channel
step c (delivers n sent) = deliver c n sent
step c (polls n elapsed) = poll c n elapsed
step c (marks channel allow) = (mark_approval c channel allow).1
