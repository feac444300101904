-- ===== src/Leader/Election.antt =====
-- The election of internal/leader/election.go, over a Lease of the Kubernetes API. Times are numbers of
-- milliseconds. The server's answers are a parameter; logging is left out, and so is the loop that ticks.
pub mod Exclusion
pub mod Label
use postkeys.Base.{
  ℕ, ◌+◌, ◌-◌, ◌*◌, Bool, true, false, not, ◌&&◌, ◌||◌, Option, none, some, List, [],
}
use postkeys.Base.{ltb, ◌==◌, compare_numbers, if◌then◌else◌}
use postkeys.Base.Bytes.{Bytes, compare_bytes}

abbrev pub lease_duration : ℕ
lease_duration = 15000

abbrev pub renew_deadline : ℕ
renew_deadline = 10000

abbrev pub conflict : ℕ
conflict = 409

abbrev pub not_found : ℕ
not_found = 404

-- `leaseSpec`. The renew time is read as `time.Parse` does: `none` where the field is missing or is no
-- time. A duration is a number of seconds. The acquire time is written and never read.
pub record LeaseSpec : Type 0 where
  pub holder_identity : Option Bytes
  pub lease_duration_seconds : Option ℕ
  pub renew_time : Option ℕ
  pub lease_transitions : Option ℕ

-- What the API server answers: a lease or none, the status, and whether the call failed.
pub record Answer : Type 0 where
  pub found : Option LeaseSpec
  pub status : ℕ
  pub failed : Bool

-- The calls of `k8sOps` on the state of the API server; `set_leader_label` also says whether it failed.
pub record Kubernetes : Type 1 where
  pub Api : Type 0
  pub get_lease : Api → Answer × Api
  pub create_lease : ℕ → Api → Answer × Api
  pub update_lease : LeaseSpec → Api → Answer × Api
  pub set_leader_label : Bool → Api → Bool × Api

pub record Election : Type 0 where
  pub is_leader : Bool
  pub last_renew : ℕ

unfoldable pub or_empty : Option Bytes → Bytes
or_empty none = []
or_empty (some s) = s

or_zero : Option ℕ → ℕ
or_zero none = 0
or_zero (some n) = n

expired_at : ℕ → Option ℕ → Option ℕ → Bool
expired_at now (some renewed) (some seconds) = ltb (renewed + seconds * 1000) now
expired_at now _ _ = true

unfoldable pub lease_expired : LeaseSpec → ℕ → Bool
unfolding expired_at
lease_expired l now = expired_at now l.renew_time l.lease_duration_seconds

-- How `attempt` ends: it holds the lease, another one does, or the call failed.
pub data Outcome : Type 0 where
  acquired : Outcome
  taken : Outcome
  trouble : Outcome

-- Behind a write: a conflict says that another one wrote first.
outcome_of : Answer → Outcome
outcome_of a = if not a.failed then acquired else if a.status == conflict then taken else trouble

unfoldable pub default_duration : Option ℕ → Option ℕ
default_duration none = some 15
default_duration (some n) = some n

unfoldable pub renewed_lease : ℕ → LeaseSpec → LeaseSpec
unfolding default_duration
renewed_lease now l = record l {
  renew_time = some now;
  lease_duration_seconds = default_duration l.lease_duration_seconds;
}

unfoldable pub taken_lease : Bytes → ℕ → LeaseSpec → LeaseSpec
unfolding or_zero
taken_lease pod now l = record {
  holder_identity = some pod;
  lease_duration_seconds = some 15;
  renew_time = some now;
  lease_transitions = some (or_zero l.lease_transitions + 1);
}

-- The lease that `createLease` of internal/leader/k8s.go posts.
unfoldable pub created_lease : Bytes → ℕ → LeaseSpec
created_lease pod now = record {
  holder_identity = some pod;
  lease_duration_seconds = some 15;
  renew_time = some now;
  lease_transitions = some 0;
}

unfoldable pub surrendered_lease : LeaseSpec → LeaseSpec
surrendered_lease l = record l { holder_identity = some []; renew_time = some 0 }

module _ (K : Kubernetes) (pod_name : Bytes) where
  open K use {Api, get_lease, create_lease, update_lease, set_leader_label}

  outcome_in : Answer × Api → Outcome × Api
  unfolding outcome_of
  outcome_in (a, api) = (outcome_of a, api)

  -- With a lease at hand.
  attempt_on : ℕ → LeaseSpec → Api → Outcome × Api
  unfolding outcome_in or_empty
  attempt_on now l api =
      if or_empty l.holder_identity == pod_name
      then outcome_in (update_lease (renewed_lease now l) api)
      else if not (lease_expired l now)
      then (taken, api)
      else outcome_in (update_lease (taken_lease pod_name now l) api)

  attempt_found : ℕ → Option LeaseSpec → Api → Outcome × Api
  unfolding outcome_in attempt_on
  attempt_found now none api = outcome_in (create_lease now api)
  attempt_found now (some l) api = attempt_on now l api

  unfoldable pub attempt : ℕ → Api → Outcome × Api
  unfolding attempt_found outcome_in
  attempt now api =
      let (a, api') = get_lease api in
      if a.failed
      then (trouble, api')
      else if a.status == not_found
      then outcome_in (create_lease now api')
      else attempt_found now a.found api'

  label_if : Bool → Bool → Api → Api
  label_if change leader api = if change then (set_leader_label leader api).1 else api

  -- `now` is the time of the attempt and `after` that behind it.
  after_attempt : ℕ → Election → Outcome → Api → Election × Api
  unfolding label_if
  after_attempt after e acquired api =
      (record { is_leader = true; last_renew = after }, label_if (not e.is_leader) true api)
  after_attempt after e taken api = (record e { is_leader = false }, label_if e.is_leader false api)
  after_attempt after e trouble api =
      if e.is_leader && ltb (after - e.last_renew) renew_deadline
      then (e, api)
      else (record e { is_leader = false }, label_if e.is_leader false api)

  unfoldable pub tick : ℕ → ℕ → Election → Api → Election × Api
  unfolding after_attempt
  tick now after e api = let (o, api') = attempt now api in after_attempt after e o api'

  is_mine : Option Bytes → Bool
  is_mine none = false
  is_mine (some holder) = holder == pod_name

  surrender_found : Answer × Api → Api
  unfolding is_mine
  surrender_found (a, api) = elim a.found [
    | none ↦ api
    | some l ↦
        if not a.failed && is_mine l.holder_identity
        then (update_lease (surrendered_lease l) api).1
        else api
  ]

  unfoldable pub surrender : Election → Api → Election × Api
  unfolding surrender_found
  surrender e api =
      (record e { is_leader = false }, (set_leader_label false (surrender_found (get_lease api))).1)
