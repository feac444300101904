-- ===== src/Handler/Runs.antt =====
-- The handlers at concrete commands.
use postkeys.Base.{ℕ, zero, suc, ◌≡◌, refl, ◌⊎◌, true, false, none, some, List, [], ◌∷◌}
use postkeys.Base.Bytes.{codes}
use postkeys.Resp.{Value, bulk_string}
use postkeys.Handler.Sample.{Counter, sample_backend, start, add_pending, commit_pending}
use postkeys.Handler.Backend.{Failure}
use postkeys.Handler.Transaction.{run_tx}
use postkeys.Handler.Transaction.AtMostOnce.{Laws, IsCommitted, is_failure, run_tx-IsCommitted}

abbrev union_args : List Value
union_args =
    bulk_string (codes "dst")
    ∷ bulk_string (codes "2")
    ∷ bulk_string (codes "a")
    ∷ bulk_string (codes "b")
    ∷ bulk_string (codes "WEIGHTS")
    ∷ []

commit_unseen :
    (n : ℕ) (w : Counter) (f : Failure)
    → (commit_pending n w).0 ≡ some f
    → (commit_pending n w).1.committed ≡ w.committed
commit_unseen zero w f e = cc e
commit_unseen (suc n) w f e = refl

commit_ended :
    (n : ℕ) (w : Counter) → (commit_pending n w).0 ≡ none → (commit_pending n w).1.opened ≡ false
commit_ended zero w e = refl
commit_ended (suc n) w e = cc e

sample-Laws : Laws sample_backend (λ w. w.committed) (λ w. w.opened) (add_pending (codes "INCR"))
sample-Laws = record {
  unseen_begin = λ w. refl;
  failed_begin = λ w text e. cc e;
  unseen_lock = λ keys w. refl;
  unseen_fn = λ w. refl;
  unseen_failure = λ w f e. commit_unseen w.conflicts w f e;
  ended_commit = λ w e. commit_ended w.conflicts w e;
  unseen_rollback = λ w. refl;
  ended_rollback = λ w. refl;
  unseen_wait = λ n w. refl;
  kept_wait = λ n w. refl;
}

-- The first commit fails, and the second attempt succeeds.
run_tx-IsCommitted_example :
    let (v, w) = run_tx sample_backend (codes "a" ∷ []) (add_pending (codes "INCR")) start in
    (w.opened ≡ false)
    × (((w.committed ≡ 0) × (is_failure v ≡ true))
        ⊎ IsCommitted sample_backend
            (λ x. x.committed)
            (λ x. x.opened)
            (codes "a" ∷ [])
            (add_pending (codes "INCR"))
            0
            v
            w)
run_tx-IsCommitted_example =
    run_tx-IsCommitted sample_backend ℕ (λ x. x.committed) (λ x. x.opened) (codes "a" ∷ [])
      (add_pending (codes "INCR")) sample-Laws start refl
