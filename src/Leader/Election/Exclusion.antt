-- ===== src/Leader/Election/Exclusion.antt =====
-- When a leader gives up, and when its lease can be taken.
use postkeys.Base.{
  ℕ, ◌+◌, ◌-◌, ◌≤◌, ◌≡◌, refl, ◌∙◌, Bool, true, false, not, ◌&&◌, ◌⊎◌, inl, inr, Option, none, some,
  arith, if◌then◌else◌, ◌==◌,
}
use postkeys.Base.{compare_numbers, ltb}
use postkeys.Base.Bytes.{Bytes, compare_bytes, same_bytes_iff}
use postkeys.Leader.Election.{
  LeaseSpec, Answer, Kubernetes, Election, Outcome, acquired, taken, trouble, or_empty,
  default_duration, created_lease, renewed_lease, taken_lease, lease_duration, renew_deadline,
  lease_expired, expired_at, conflict, not_found, outcome_of, outcome_in, attempt_on, attempt_found,
  attempt, label_if, after_attempt, tick,
}

-- The lease of the pod, for 15 seconds, renewed at a time.
abbrev pub IsRenewed : Bytes → ℕ → LeaseSpec → Type 0
IsRenewed pod r l =
    (or_empty l.holder_identity ≡ pod)
    × ((l.lease_duration_seconds ≡ some 15) × (l.renew_time ≡ some r))

-- `stored` is the lease that the server has. A call that answers that it worked has stored the lease it was given;
-- one that failed has done so, or has left what was there.
pub record Laws (K : Kubernetes) (stored : K.Api → Option LeaseSpec) (pod_name : Bytes)
    : Type 0 where
  pub get_keeps : (api : K.Api) → stored (K.get_lease api).1 ≡ stored api
  pub create_stores :
      (now : ℕ) (api : K.Api)
      → (K.create_lease now api).0.failed ≡ false
      → stored (K.create_lease now api).1 ≡ some (created_lease pod_name now)
  pub create_fails :
      (now : ℕ) (api : K.Api)
      → (stored (K.create_lease now api).1 ≡ stored api)
        ⊎ (stored (K.create_lease now api).1 ≡ some (created_lease pod_name now))
  pub update_stores :
      (l : LeaseSpec) (api : K.Api)
      → (K.update_lease l api).0.failed ≡ false
      → stored (K.update_lease l api).1 ≡ some l
  pub update_fails :
      (l : LeaseSpec) (api : K.Api)
      → (stored (K.update_lease l api).1 ≡ stored api) ⊎ (stored (K.update_lease l api).1 ≡ some l)
  pub label_keeps : (b : Bool) (api : K.Api) → stored (K.set_leader_label b api).1 ≡ stored api

-- The server has the lease of the pod, renewed at a time.
abbrev pub IsHeld : Bytes → ℕ → Option LeaseSpec → Type 0
IsHeld pod r o = (l : LeaseSpec) × ((o ≡ some l) × IsRenewed pod r l)

module _ (K : Kubernetes) (stored : K.Api → Option LeaseSpec) (pod_name : Bytes) where
  -- The pod's own memory of the last renewal is at most `slack` too late.
  abbrev pub IsLeading : ℕ → Election → K.Api → Type 0
  IsLeading slack e api = (r : ℕ) × (IsHeld pod_name r (stored api) × (e.last_renew ≤ r + slack))

module _ (K : Kubernetes) (stored : K.Api → Option LeaseSpec) (pod_name : Bytes)
    (laws : Laws K stored pod_name) where
  -- What an attempt that began at `now` leaves, if the server had `before`.
  abbrev IsSound : ℕ → Option LeaseSpec → Outcome × K.Api → Type 0
  IsSound now before (acquired, api) = IsHeld pod_name now (stored api)
  IsSound now before (taken, api) = Unit
  IsSound now before (trouble, api) = (stored api ≡ before) ⊎ IsHeld pod_name now (stored api)

  if-IsSound :
      (now : ℕ) (before : Option LeaseSpec) (b : Bool) (x y : Outcome × K.Api)
      → (b ≡ true → IsSound now before x)
      → (b ≡ false → IsSound now before y)
      → IsSound now before (if b then x else y)
  if-IsSound now before true x y f g = f refl
  if-IsSound now before false x y f g = g refl

  -- Behind a write of a lease of the pod.
  written-IsSound :
      (now : ℕ) (before : Option LeaseSpec) (l : LeaseSpec) (a : Answer) (api : K.Api)
      → IsRenewed pod_name now l
      → (a.failed ≡ false → stored api ≡ some l)
      → (stored api ≡ before) ⊎ (stored api ≡ some l)
      → IsSound now before (outcome_in K pod_name (a, api))
  unfolding outcome_in outcome_of
  written-IsSound now before l a api fresh works fails = go a.failed (a.status == conflict) works
    where
      go :
          (failed conflicts : Bool)
          → (failed ≡ false → stored api ≡ some l)
          → IsSound now before
              (if not failed then acquired else if conflicts then taken else trouble, api)
      go false conflicts works = (l, (works refl, fresh))
      go true true works = tt
      go true false works = elim fails [ inl e ↦ inl e | inr e ↦ inr (l, (e, fresh)) ]

  created_lease-IsRenewed : (now : ℕ) → IsRenewed pod_name now (created_lease pod_name now)
  unfolding created_lease or_empty
  created_lease-IsRenewed now = (refl, (refl, refl))

  taken_lease-IsRenewed :
      (now : ℕ) (l : LeaseSpec) → IsRenewed pod_name now (taken_lease pod_name now l)
  unfolding taken_lease or_empty
  taken_lease-IsRenewed now l = (refl, (refl, refl))

  renewed_lease-IsRenewed :
      (now : ℕ) (l : LeaseSpec)
      → or_empty l.holder_identity ≡ pod_name
      → default_duration l.lease_duration_seconds ≡ some 15
      → IsRenewed pod_name now (renewed_lease now l)
  unfolding renewed_lease
  renewed_lease-IsRenewed now l h d = (h, (d, refl))

  create-IsSound :
      (now : ℕ) (api : K.Api)
      → IsSound now (stored api) (outcome_in K pod_name (K.create_lease now api))
  create-IsSound now api =
      written-IsSound now (stored api) (created_lease pod_name now) (K.create_lease now api).0
        (K.create_lease now api).1 (created_lease-IsRenewed now) (laws.create_stores now api)
        (laws.create_fails now api)

  update-IsSound :
      (now : ℕ) (l : LeaseSpec) (api : K.Api)
      → IsRenewed pod_name now l
      → IsSound now (stored api) (outcome_in K pod_name (K.update_lease l api))
  update-IsSound now l api fresh =
      written-IsSound now (stored api) l (K.update_lease l api).0 (K.update_lease l api).1 fresh
        (laws.update_stores l api) (laws.update_fails l api)

  attempt_on-IsSound :
      (now : ℕ) (l : LeaseSpec) (api : K.Api)
      → default_duration l.lease_duration_seconds ≡ some 15
      → IsSound now (stored api) (attempt_on K pod_name now l api)
  unfolding attempt_on
  attempt_on-IsSound now l api d =
      if-IsSound now (stored api) (or_empty l.holder_identity == pod_name) _ _
        (λ h. update-IsSound now (renewed_lease now l) api (
          renewed_lease-IsRenewed now l ((same_bytes_iff (or_empty l.holder_identity) pod_name).0 h)
            d))
        (λ h.
          if-IsSound now (stored api) (not (lease_expired l now)) _ _ (λ e. tt)
            (λ e.
              update-IsSound now (taken_lease pod_name now l) api (taken_lease-IsRenewed now l)))

  attempt_found-IsSound :
      (now : ℕ) (o : Option LeaseSpec) (api : K.Api)
      → ((l : LeaseSpec) → o ≡ some l → default_duration l.lease_duration_seconds ≡ some 15)
      → IsSound now (stored api) (attempt_found K pod_name now o api)
  unfolding attempt_found
  attempt_found-IsSound now none api d = create-IsSound now api
  attempt_found-IsSound now (some l) api d = attempt_on-IsSound now l api (d l refl)

  attempt-IsSound :
      (now : ℕ) (api : K.Api)
      → ((l : LeaseSpec)
          → (K.get_lease api).0.found ≡ some l
          → default_duration l.lease_duration_seconds ≡ some 15)
      → IsSound now (stored (K.get_lease api).1) (attempt K pod_name now api)
  unfolding attempt
  attempt-IsSound now api durations =
      let (a, api') = K.get_lease api in
      if-IsSound now (stored api') a.failed _ _ (λ h. inl refl)
        (λ h.
          if-IsSound now (stored api') (a.status == not_found) _ _ (λ e. create-IsSound now api')
            (λ e. attempt_found-IsSound now a.found api' durations))

  stored-label_if :
      (change leader : Bool) (api : K.Api)
      → stored (label_if K pod_name change leader api) ≡ stored api
  unfolding label_if
  stored-label_if true leader api = laws.label_keeps leader api
  stored-label_if false leader api = refl

  -- What a leader has behind a tick: it leads, and gave up nothing that is too old.
  abbrev IsFresh : ℕ → ℕ → Election × K.Api → Type 0
  IsFresh slack after (e, api) =
      (r : ℕ) × ((IsHeld pod_name r (stored api) × (e.last_renew ≤ r + slack))
        × (after ≤ r + slack + renew_deadline))

  trouble-IsFresh :
      (now after slack : ℕ) (e : Election) (api : K.Api) (b : Bool)
      → (b ≡ true
          → (r : ℕ) × (IsHeld pod_name r (stored api)
              × ((e.last_renew ≤ r + slack) × (after ≤ r + slack + renew_deadline))))
      → let r : Election × K.Api =
          if b
          then (e, api)
          else (record e { is_leader = false }, label_if K pod_name e.is_leader false api) in
        r.0.is_leader ≡ true → IsFresh slack after r
  trouble-IsFresh now after slack e api true f h =
      let (r, (held, (a, b))) = f refl in (r, ((held, a), b))
  trouble-IsFresh now after slack e api false f h = absurd (cc h)

  after_attempt-IsFresh :
      (now after slack : ℕ) (e : Election) (before : Option LeaseSpec) (o : Outcome) (api : K.Api)
      → IsSound now before (o, api)
      → (e.is_leader ≡ true → (r : ℕ) × (IsHeld pod_name r before × (e.last_renew ≤ r + slack)))
      → (e.is_leader ≡ true → e.last_renew ≤ now)
      → after ≤ now + slack
      → (after_attempt K pod_name after e o api).0.is_leader ≡ true
      → IsFresh slack after (after_attempt K pod_name after e o api)
  unfolding after_attempt
  after_attempt-IsFresh now after slack e before acquired api (l, (s, fresh)) leads past quick h = (
    now,
    (((l, (stored-label_if (not e.is_leader) true api ∙ s, fresh)), quick), omega (arith, quick)),
  )
  after_attempt-IsFresh now after slack e before taken api sound leads past quick h = absurd (cc h)
  after_attempt-IsFresh now after slack e before trouble api sound leads past quick h =
      trouble-IsFresh now after slack e api
        (e.is_leader && ltb (after - e.last_renew) renew_deadline)
        (λ kept.
          let leader : e.is_leader ≡ true = ground (arith, kept) in
          let (r, ((l, (s, fresh)), late)) = leads leader in
          let old = past leader in
          elim sound [
            | inl same ↦ (r, ((l, (same ∙ s, fresh)), (late, ground (arith, kept, late))))
            | inr held ↦ (now, (held, (omega (arith, old), ground (arith, kept, old))))
          ])
        h

  not_expired :
      (l : LeaseSpec) (r t : ℕ)
      → IsRenewed pod_name r l
      → t ≤ r + lease_duration
      → lease_expired l t ≡ false
  unfolding lease_expired expired_at
  not_expired l r t (h, (d, n)) le = rw (n, d) (ground arith)

  -- Take a pod that, if it is the leader, has its lease on the server, and remembers a time for the last renewal
  -- that has passed and is at most `slack` later than the lease says. An attempt of it takes at most
  -- `slack`, and a lease that it reads is for 15 seconds or says nothing of its duration. Then behind
  -- every tick that leaves the pod the leader the server has a lease of the pod,
  -- which is not expired and is not for another `lease_duration - renew_deadline` less `slack`; and
  -- what was supposed of the pod's memory holds again.
  pub tick-lease_not_expired :
      (now after slack t : ℕ) (e : Election) (api : K.Api)
      → (e.is_leader ≡ true → IsLeading K stored pod_name slack e api)
      → (e.is_leader ≡ true → e.last_renew ≤ now)
      → ((l : LeaseSpec)
          → (K.get_lease api).0.found ≡ some l
          → default_duration l.lease_duration_seconds ≡ some 15)
      → after ≤ now + slack
      → (tick K pod_name now after e api).0.is_leader ≡ true
      → t + slack ≤ after + (lease_duration - renew_deadline)
      → let (e', api') = tick K pod_name now after e api in
        IsLeading K stored pod_name slack e' api'
        × ((l : LeaseSpec) × ((stored api' ≡ some l)
              × ((or_empty l.holder_identity ≡ pod_name) × (lease_expired l t ≡ false))))
  unfolding tick
  tick-lease_not_expired now after slack t e api leads past durations quick h soon =
      let (o, api') = attempt K pod_name now api in
      let (r, (((l, (s, fresh)), late), close)) =
        after_attempt-IsFresh now after slack e (stored (K.get_lease api).1) o api'
          (attempt-IsSound now api durations)
          (λ leader.
            let (r, ((l, (s, fresh)), late)) = leads leader in
            (r, ((l, (laws.get_keeps api ∙ s, fresh)), late)))
          past quick h in
      (
        (r, ((l, (s, fresh)), late)),
        (l, (s, (fresh.0, not_expired l r t fresh (omega (arith, close, soon))))),
      )
