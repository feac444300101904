-- ===== src/Handler/Transaction/AtMostOnce.antt =====
-- How often `runTx` runs the commands and commits, and what it leaves, whatever fails.
use postkeys.Base.{
  ℕ, zero, suc, ◌-◌, ◌≡◌, refl, sym, ap, Bool, true, false, ◌&&◌, ◌||◌, ◌++◌, Option, none, some,
  List, [], ◌⊎◌, inl, inr, arith,
}
use postkeys.Base.{if◌then◌else◌, ◌∙◌}
use postkeys.Base.Bytes.{Bytes, codes}
use postkeys.Resp.{Value, err_reply}
use postkeys.Handler.Backend.{Backend, Failure}
use postkeys.Handler.Transaction.{
  Attempt, done, again, attempt, run_attempts, run_tx, has_retryable_error, is_error,
}
use postkeys.Handler.Transaction.{
  after_begin, after_lock, after_fn, after_commit, settle, after_wait, max_exec_retries,
}

-- A reply that says that something failed.
abbrev pub is_failure : Value → Bool
is_failure v = is_error v || has_retryable_error v

is_failure-err_reply : (msg : Bytes) → is_failure (err_reply msg) ≡ true
unfolding is_error err_reply
is_failure-err_reply msg = ground arith

module _ (B : Backend) {V : Type 0} (visible : B.World → V) (is_open : B.World → Bool)
    (keys : List Bytes) (fn : B.World → Value × B.World) where
  -- One run of the commands, behind the begin of a transaction on a state that shows `start` and behind the locks
  -- on the keys, whose commit succeeded.
  abbrev pub IsCommitted : V → Value → B.World → Type 0
  IsCommitted start v w =
      (w0 : B.World) × (let b = B.begin_tx w0 in
        let l = B.lock_keys keys b.1 in
        (is_open w0 ≡ false)
        × ((visible w0 ≡ start)
            × ((b.0 ≡ none)
                × ((l.0 ≡ none)
                    × ((v ≡ (fn l.1).0)
                        × ((has_retryable_error v ≡ false) × (B.commit (fn l.1).1 ≡ (none, w))))))))

-- What others see of the store is `visible`, and `is_open` says whether there is an open transaction. It is not
-- seen, nor is one that is rolled back, nor one whose commit fails. A begin that works opens one, and a
-- commit that works and a rollback end it.
pub record Laws (B : Backend) {V : Type 0} (visible : B.World → V) (is_open : B.World → Bool)
    (fn : B.World → Value × B.World) : Type 0 where
  pub unseen_begin : (w : B.World) → visible (B.begin_tx w).1 ≡ visible w
  pub failed_begin :
      (w : B.World) (text : Bytes)
      → (B.begin_tx w).0 ≡ some text
      → is_open (B.begin_tx w).1 ≡ is_open w
  pub unseen_lock : (keys : List Bytes) (w : B.World) → visible (B.lock_keys keys w).1 ≡ visible w
  pub unseen_fn : (w : B.World) → visible (fn w).1 ≡ visible w
  pub unseen_failure :
      (w : B.World) (f : Failure) → (B.commit w).0 ≡ some f → visible (B.commit w).1 ≡ visible w
  pub ended_commit : (w : B.World) → (B.commit w).0 ≡ none → is_open (B.commit w).1 ≡ false
  pub unseen_rollback : (w : B.World) → visible (B.rollback w) ≡ visible w
  pub ended_rollback : (w : B.World) → is_open (B.rollback w) ≡ false
  pub unseen_wait : (n : ℕ) (w : B.World) → visible (B.back_off n w).1 ≡ visible w
  pub kept_wait : (n : ℕ) (w : B.World) → is_open (B.back_off n w).1 ≡ is_open w

module _ (B : Backend) (V : Type 0) (visible : B.World → V) (is_open : B.World → Bool)
    (keys : List Bytes) (fn : B.World → Value × B.World) (laws : Laws B visible is_open fn) where
  -- No transaction is left open, and the store shows what it showed before.
  abbrev IsBack : V → B.World → Type 0
  IsBack start w = (is_open w ≡ false) × (visible w ≡ start)

  -- What an attempt did: nothing to be seen, or one commit.
  abbrev IsSound : V → Attempt B.World → Type 0
  IsSound start (done v w) =
      (is_open w ≡ false)
      × (((visible w ≡ start) × (is_failure v ≡ true))
          ⊎ IsCommitted B visible is_open keys fn start v w)
  IsSound start (again w) = IsBack start w

  if-IsSound :
      (start : V) (b : Bool) (a a' : Attempt B.World)
      → (b ≡ true → IsSound start a)
      → (b ≡ false → IsSound start a')
      → IsSound start (if b then a else a')
  if-IsSound start true a a' f g = f refl
  if-IsSound start false a a' f g = g refl

  failed-IsSound :
      (start : V) (v : Value) (w : B.World)
      → IsBack start w
      → is_failure v ≡ true
      → IsSound start (done v w)
  failed-IsSound start v w (closed, seen) f = (closed, inl (seen, f))

  back : (start : V) (w : B.World) → visible w ≡ start → IsBack start (B.rollback w)
  back start w seen = (laws.ended_rollback w, laws.unseen_rollback w ∙ seen)

  -- Behind the locks.
  abbrev IsBegun : V → B.World → Type 0
  IsBegun start w =
      (w0 : B.World) × (let b = B.begin_tx w0 in
        let l = B.lock_keys keys b.1 in
        (is_open w0 ≡ false) × ((visible w0 ≡ start) × ((b.0 ≡ none) × ((l.0 ≡ none) × (l.1 ≡ w)))))

  begun-visible : (start : V) (w : B.World) → IsBegun start w → visible w ≡ start
  begun-visible start w (w0, (o, (e, (b, (l, q))))) =
      ap visible (sym q) ∙ (laws.unseen_lock keys (B.begin_tx w0).1 ∙ (laws.unseen_begin w0 ∙ e))

  committed :
      (start : V) (v : Value) (w w' : B.World)
      → IsBegun start w
      → v ≡ (fn w).0
      → has_retryable_error v ≡ false
      → B.commit (fn w).1 ≡ (none, w')
      → IsCommitted B visible is_open keys fn start v w'
  committed start v w w' (w0, (o, (e, (b, (l, q))))) a n c = (
    w0,
    (o, (e, (b, (l, (a ∙ ap (λ x. (fn x).0) (sym q), (n, ap (λ x. B.commit (fn x).1) q ∙ c)))))),
  )

  after_commit-IsSound :
      (start : V) (can_retry : Bool) (w0 : B.World)
      → IsBegun start w0
      → has_retryable_error (fn w0).0 ≡ false
      → (o : Option Failure) (w : B.World) → B.commit (fn w0).1 ≡ (o, w)
      → IsSound start (after_commit B can_retry (fn w0).0 (o, w))
  unfolding after_commit
  after_commit-IsSound start can_retry w0 e n none w c = (
    ap is_open (ap (λ r. r.1) (sym c)) ∙ laws.ended_commit (fn w0).1 (ap (λ r. r.0) c),
    inr (committed start (fn w0).0 w0 w e refl n c),
  )
  after_commit-IsSound start can_retry w0 e n (some f) w c =
      let seen : visible w ≡ start =
        ap visible (ap (λ r. r.1) (sym c))
        ∙ (laws.unseen_failure (fn w0).1 f (ap (λ r. r.0) c)
            ∙ (laws.unseen_fn w0 ∙ begun-visible start w0 e)) in
      if-IsSound start (f.retryable && can_retry) _ _ (λ h. back start w seen)
        (λ h.
          if-IsSound start (is_error (fn w0).0) _ _
            (λ q. failed-IsSound start (fn w0).0 (B.rollback w) (back start w seen) (ground arith))
            (λ q.
              failed-IsSound start _ (B.rollback w) (back start w seen)
                (is_failure-err_reply (codes "transaction commit failed: " ++ f.text))))

  after_fn-IsSound :
      (start : V) (can_retry : Bool) (w0 : B.World)
      → IsBegun start w0
      → IsSound start (after_fn B can_retry (fn w0))
  unfolding after_fn
  after_fn-IsSound start can_retry w0 e =
      let seen = laws.unseen_fn w0 ∙ begun-visible start w0 e in
      if-IsSound start (has_retryable_error (fn w0).0) _ _
        (λ h.
          if-IsSound start can_retry _ _ (λ q. back start (fn w0).1 seen)
            (λ q.
              failed-IsSound start (fn w0).0 (B.rollback (fn w0).1) (back start (fn w0).1 seen)
                (ground arith)))
        (λ h.
          after_commit-IsSound start can_retry w0 e h (B.commit (fn w0).1).0 (B.commit (fn w0).1).1
            refl)

  after_lock-IsSound :
      (start : V) (can_retry : Bool) (w0 : B.World)
      → IsBack start w0
      → (B.begin_tx w0).0 ≡ none
      → (o : Option Failure) (w : B.World) → B.lock_keys keys (B.begin_tx w0).1 ≡ (o, w)
      → IsSound start (after_lock B can_retry fn (o, w))
  unfolding after_lock
  after_lock-IsSound start can_retry w0 (closed, e) b none w l =
      after_fn-IsSound start can_retry w
        (w0, (closed, (e, (b, (ap (λ r. r.0) l, ap (λ r. r.1) l)))))
  after_lock-IsSound start can_retry w0 (closed, e) b (some f) w l =
      let seen : visible w ≡ start =
        ap visible (ap (λ r. r.1) (sym l))
        ∙ (laws.unseen_lock keys (B.begin_tx w0).1 ∙ (laws.unseen_begin w0 ∙ e)) in
      if-IsSound start (f.retryable && can_retry) _ _ (λ h. back start w seen)
        (λ h.
          failed-IsSound start _ (B.rollback w) (back start w seen)
            (is_failure-err_reply (codes "transaction failed: " ++ f.text)))

  after_begin-IsSound :
      (start : V) (can_retry : Bool) (w0 : B.World)
      → IsBack start w0
      → (o : Option Bytes) (w : B.World) → B.begin_tx w0 ≡ (o, w)
      → IsSound start (after_begin B can_retry keys fn (o, w))
  unfolding after_begin
  after_begin-IsSound start can_retry w0 e none w b =
      after_lock-IsSound start can_retry w0 e (ap (λ r. r.0) b) (B.lock_keys keys w).0
        (B.lock_keys keys w).1 (ap (λ r. B.lock_keys keys r.1) b)
  after_begin-IsSound start can_retry w0 (closed, e) (some text) w b =
      failed-IsSound start _ w
        (
          ap (λ r. is_open r.1) (sym b) ∙ (laws.failed_begin w0 text (ap (λ r. r.0) b) ∙ closed),
          ap (λ r. visible r.1) (sym b) ∙ (laws.unseen_begin w0 ∙ e),
        )
        (is_failure-err_reply (codes "transaction start failed: " ++ text))

  attempt-IsSound :
      (start : V) (can_retry : Bool) (w : B.World)
      → IsBack start w
      → IsSound start (attempt B can_retry keys fn w)
  unfolding attempt
  attempt-IsSound start can_retry w e =
      after_begin-IsSound start can_retry w e (B.begin_tx w).0 (B.begin_tx w).1 refl

  settle-IsSound :
      (start : V) (next : B.World → Value × B.World) (a : Attempt B.World)
      → IsSound start a
      → ((w : B.World) → IsBack start w → IsSound start (done (next w).0 (next w).1))
      → IsSound start (done (settle B next a).0 (settle B next a).1)
  unfolding settle
  settle-IsSound start next (done v w) sound f = sound
  settle-IsSound start next (again w) seen f = f w seen

  after_wait-IsSound :
      (start : V) (next : B.World → Value × B.World) (o : Option Bytes) (w : B.World)
      → IsBack start w
      → ((w : B.World) → IsBack start w → IsSound start (done (next w).0 (next w).1))
      → IsSound start (done (after_wait B next (o, w)).0 (after_wait B next (o, w)).1)
  unfolding after_wait
  after_wait-IsSound start next none w e f = f w e
  after_wait-IsSound start next (some text) w e f =
      failed-IsSound start _ w e (is_failure-err_reply (codes "transaction aborted: " ++ text))

  run_attempts-IsSound :
      (left : ℕ) (start : V) (w : B.World)
      → IsBack start w
      → let (v, w') = run_attempts B left keys fn w in IsSound start (done v w')
  unfolding run_attempts
  run_attempts-IsSound zero start w e =
      settle-IsSound start _ (attempt B false keys fn w) (attempt-IsSound start false w e)
        (λ w' e'. failed-IsSound start _ w' e' (is_failure-err_reply []))
  run_attempts-IsSound (suc left) start w e =
      let n : ℕ = max_exec_retries - left in
      settle-IsSound start _ (attempt B true keys fn w) (attempt-IsSound start true w e) (λ w' e'.
        after_wait-IsSound start (run_attempts B left keys fn) (B.back_off n w').0
          (B.back_off n w').1 (laws.kept_wait n w' ∙ e'.0, laws.unseen_wait n w' ∙ e'.1)
          (run_attempts-IsSound left start))

  -- EXEC on a store with no open transaction, which treats transactions as `Laws` says: it leaves no
  -- transaction open. Either the store shows what it showed before and the reply says that something
  -- failed; or the commands ran once, behind a begin on a state that showed what the store showed
  -- before and behind the locks on all the keys, their replies are the answer, and none of them met a
  -- deadlock, and the state is that of the commit of this run, which succeeded.
  pub run_tx-IsCommitted :
      (w : B.World)
      → is_open w ≡ false
      → let (v, w') = run_tx B keys fn w in
        (is_open w' ≡ false)
        × (((visible w' ≡ visible w) × (is_failure v ≡ true))
            ⊎ IsCommitted B visible is_open keys fn (visible w) v w')
  unfolding run_tx
  run_tx-IsCommitted w closed = run_attempts-IsSound max_exec_retries (visible w) w (closed, refl)
