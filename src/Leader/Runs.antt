-- ===== src/Leader/Runs.antt =====
-- The election at a concrete lease.
use postkeys.Base.{ℕ, inr, ◌≡◌, refl, sym, ap, Bool, true, false, Option, none, some, arith}
use postkeys.Base.Bytes.{Bytes, codes, same_bytes}
use postkeys.Leader.Election.{
  LeaseSpec, Answer, Kubernetes, Election, attempt, tick, lease_expired, or_empty, created_lease,
  default_duration,
}
use postkeys.Leader.Election.Exclusion.{tick-lease_not_expired, IsLeading, Laws}
use postkeys.Leader.Election.Label.{tick-label}

-- A server with one lease and one label, where every call works.
record Server : Type 0 where
  stored : Option LeaseSpec
  labelled : Bool

abbrev answer : Option LeaseSpec → Answer
answer l = record { found = l; status = 200; failed = false }

abbrev pod : Bytes
pod = codes "pod-1"

abbrev api_server : Kubernetes
api_server = record {
  Api = Server;
  get_lease = λ s. (answer s.stored, s);
  create_lease = λ now s.
      (answer (some (created_lease pod now)), record s { stored = some (created_lease pod now) });
  update_lease = λ l s. (answer (some l), record s { stored = some l });
  set_leader_label = λ b s. (false, record s { labelled = b });
}

abbrev held : LeaseSpec
held = record {
  holder_identity = some pod;
  lease_duration_seconds = some 15;
  renew_time = some 1000;
  lease_transitions = none;
}

abbrev server : Server
server = record { stored = some held; labelled = true }

abbrev leader : Election
leader = record { is_leader = true; last_renew = 1100 }

api-Laws : Laws api_server (λ s. s.stored) pod
api-Laws = record {
  get_keeps = λ s. refl;
  create_stores = λ now s e. refl;
  create_fails = λ now s. inr refl;
  update_stores = λ l s e. refl;
  update_fails = λ l s. inr refl;
  label_keeps = λ b s. refl;
}

found_duration :
    (l : LeaseSpec) → some held ≡ some l → default_duration l.lease_duration_seconds ≡ some 15
unfolding default_duration
found_duration l e = some_duration (some l) e
  where
    duration : Option LeaseSpec → Option ℕ
    duration none = none
    duration (some l) = default_duration l.lease_duration_seconds

    some_duration : (o : Option LeaseSpec) → some held ≡ o → duration o ≡ some 15
    some_duration o e = sym (ap duration e)

tick-lease_not_expired_example :
    let (e', s') = tick api_server pod 3000 3050 leader server in
    IsLeading api_server (λ s. s.stored) pod 100 e' s'
    × ((l : LeaseSpec) × ((s'.stored ≡ some l)
          × ((or_empty l.holder_identity ≡ pod) × (lease_expired l 7950 ≡ false))))
unfolding tick attempt same_bytes
tick-lease_not_expired_example =
    tick-lease_not_expired api_server (λ s. s.stored) pod api-Laws 3000 3050 100 7950 leader server
      (λ h. (1000, ((held, (refl, (refl, (refl, refl)))), omega arith))) (λ h. omega arith)
      (λ l e. found_duration l e) (omega arith) refl (omega arith)

tick-label_example :
    let (e', s') = tick api_server pod 3000 3050 leader server in s'.labelled ≡ e'.is_leader
tick-label_example =
    tick-label api_server pod (λ s. s.labelled) (λ s. refl) (λ now s. refl) (λ l s. refl)
      (λ b s. refl) 3000 3050 leader server refl
