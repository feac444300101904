-- ===== src/Server/Session/Cases.antt =====
-- A command is empty, or has a name and arguments.
use postkeys.Base.{◌≡◌, refl, Bool, true, false, List, [], ◌∷◌, ◌⊎◌, inl, inr, ◌==◌, ap, sym}
use postkeys.Base.Bytes.{Bytes, to_upper, compare_bytes}
use postkeys.Resp.{Value}
use postkeys.Handler.Arguments.{bulk, parts}
use postkeys.Handler.Backend.{Backend}
use postkeys.Handler.Dispatch.{handle}
use postkeys.Server.Client.{ClientState}
use postkeys.Server.Session.{Session, step, gate, ordinary}

pub List-cases :
    (vs : List Value) → (vs ≡ []) ⊎ ((head : Value) × (args : List Value) × (vs ≡ head ∷ args))
List-cases [] = inl refl
List-cases (v ∷ vs) = inr (v, vs, refl)

abbrev pub is_named : Bytes → List Value → Bool
is_named name [] = false
is_named name (head ∷ args) = to_upper (bulk head) == name

module _ (password : Bytes) (pubsub : Bool) (info : ClientState → Bytes) (B : Backend) where
  ordinary-nothing :
      (cmd : Value) (s : Session B.World)
      → parts cmd ≡ []
      → (ordinary password pubsub info B cmd s).1 ≡ s
  unfolding ordinary handle
  ordinary-nothing cmd s e = rw e refl

  pub step-nothing :
      (cmd : Value) (s : Session B.World)
      → parts cmd ≡ []
      → (step password pubsub info B cmd s).1 ≡ s
  unfolding step
  step-nothing cmd s e = rw (e, ordinary-nothing cmd s e) refl

  pub step-gate :
      (cmd head : Value) (args : List Value) (s : Session B.World)
      → parts cmd ≡ head ∷ args
      → step password pubsub info B cmd s
        ≡ gate password pubsub info B cmd (to_upper (bulk head)) args s
  unfolding step
  step-gate cmd head args s e = rw e refl

  pub step-named :
      (name : Bytes) (cmd : Value) (s : Session B.World)
      → is_named name (parts cmd) ≡ true
      → (args : List Value) × (step password pubsub info B cmd s
          ≡ gate password pubsub info B cmd name args s)
  step-named name cmd s n = elim (List-cases (parts cmd)) [
    | inl e ↦ cc (n, ap (is_named name) e)
    | inr (head, args, e) ↦
        let same : to_upper (bulk head) ≡ name =
          (compare_bytes.same_iff (to_upper (bulk head)) name).0 (cc (n, ap (is_named name) e)) in
        (args, rw (sym same) (step-gate cmd head args s e))
  ]
