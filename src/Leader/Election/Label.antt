-- ===== src/Leader/Election/Label.antt =====
-- The label that routes the traffic follows the leadership.
use postkeys.Base.{ℕ, ◌≡◌, refl, Bool, true, false, Option, none, some, arith}
use postkeys.Base.{compare_numbers, ◌∙◌}
use postkeys.Base.Bytes.{Bytes, compare_bytes}
use postkeys.Leader.Election.{LeaseSpec, Kubernetes, Election, Outcome, acquired, taken, trouble}
use postkeys.Leader.Election.{
  attempt, attempt_on, attempt_found, after_attempt, tick, surrender, surrender_found, label_if,
  outcome_in, renewed_lease, taken_lease,
}

-- `label` reads the pod's label off the API server: leases do not touch it, and setting it works.
module _ (K : Kubernetes) (pod_name : Bytes) (label : K.Api → Bool)
    (label_get : (api : K.Api) → label (K.get_lease api).1 ≡ label api)
    (label_create : (now : ℕ) (api : K.Api) → label (K.create_lease now api).1 ≡ label api)
    (label_update : (l : LeaseSpec) (api : K.Api) → label (K.update_lease l api).1 ≡ label api)
    (label_set : (b : Bool) (api : K.Api) → label (K.set_leader_label b api).1 ≡ b) where
  label-attempt_on :
      (now : ℕ) (l : LeaseSpec) (api : K.Api)
      → label (attempt_on K pod_name now l api).1 ≡ label api
  unfolding attempt_on outcome_in
  label-attempt_on now l api =
      ground (
        arith,
        label_update (renewed_lease now l) api,
        label_update (taken_lease pod_name now l) api,
      )

  label-attempt_found :
      (now : ℕ) (o : Option LeaseSpec) (api : K.Api)
      → label (attempt_found K pod_name now o api).1 ≡ label api
  unfolding attempt_found outcome_in
  label-attempt_found now none api = label_create now api
  label-attempt_found now (some l) api = label-attempt_on now l api

  label-attempt : (now : ℕ) (api : K.Api) → label (attempt K pod_name now api).1 ≡ label api
  unfolding attempt attempt_found outcome_in
  label-attempt now api =
      let (a, api') = K.get_lease api in
      ground (arith, label_get api, label_create now api', label-attempt_found now a.found api')

  label-after_attempt :
      (after : ℕ) (e : Election) (o : Outcome) (api : K.Api)
      → label api ≡ e.is_leader
      → let (e', api') = after_attempt K pod_name after e o api in label api' ≡ e'.is_leader
  unfolding after_attempt label_if
  label-after_attempt after e acquired api h = ground (arith, label_set true api, h)
  label-after_attempt after e taken api h = ground (arith, label_set false api, h)
  label-after_attempt after e trouble api h = ground (arith, label_set false api, h)

  -- Where the label can always be set, a tick that finds it telling whether the pod is the leader leaves
  -- it so, whatever the answers of the API server are.
  pub tick-label :
      (now after : ℕ) (e : Election) (api : K.Api)
      → label api ≡ e.is_leader
      → let (e', api') = tick K pod_name now after e api in label api' ≡ e'.is_leader
  unfolding tick
  tick-label now after e api h =
      let (o, api') = attempt K pod_name now api in
      label-after_attempt after e o api' (label-attempt now api ∙ h)

  -- A pod that surrenders is no leader and has no label, whoever holds the lease.
  pub surrender-label :
      (e : Election) (api : K.Api)
      → let (e', api') = surrender K pod_name e api in (e'.is_leader ≡ false) × (label api' ≡ false)
  unfolding surrender
  surrender-label e api = (refl, label_set false (surrender_found K pod_name (K.get_lease api)))
