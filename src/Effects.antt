-- ===== src/Effects.antt =====
-- Code that calls AWS and the metrics recorder, and that may panic: a state monad over both.
pub mod Rules
use ack_networkmanager_contr.Prelude.{
  String, Option, none, some, List, [], ◌∷◌, ◌++◌, Outcome, done, panic,
}
use ack_networkmanager_contr.External.{Reply, replied, failed}

-- A call of `metrics.RecordAPICall(opType, opID, err)`.
pub record ApiCall (Err : Type 0) : Type 0 where
  pub op_type : String
  pub op_id : String
  pub err : Option Err

pub record World (Err State : Type 0) : Type 0 where
  pub aws : State
  pub metrics : List (ApiCall Err)

abbrev pub M : Type 0 → Type 0 → Type 0 → Type 0
M Err State A = World Err State → Outcome A × World Err State

module _ {Err State : Type 0} where
  abbrev pub continue :
      {A B : Type 0}
      → Outcome A
      → (A → M Err State B)
      → World Err State
      → Outcome B × World Err State
  continue (done a) f w = f a w
  continue (panic e) f w = (panic e, w)

  infixl 5 ◌>>=◌ ◌>>◌
  abbrev pub ◌>>=◌ : {A B : Type 0} → M Err State A → (A → M Err State B) → M Err State B
  ◌>>=◌ m f w = let (r, w') = m w in continue r f w'

  abbrev pub ◌>>◌ : {A B : Type 0} → M Err State A → M Err State B → M Err State B
  m >> n = m >>= λ _. n

  abbrev pub pure : {A : Type 0} → A → M Err State A
  pure a w = (done a, w)

  abbrev pub lift : {A : Type 0} → Outcome A → M Err State A
  lift r w = (r, w)

  -- A call of the AWS client.
  abbrev pub call : {A : Type 0} → (State → A × State) → M Err State A
  call f w = let (a, s) = f w.aws in (done a, record w { aws = s })

  abbrev pub record_api_call : String → String → Option Err → M Err State (Unit {0})
  record_api_call op_type op_id err w = (
    done tt,
    record w {
      metrics = w.metrics ++ (record { op_type = op_type; op_id = op_id; err = err } ∷ []);
    },
  )

-- The error of a reply, nil if it has an output.
abbrev pub error_of : {Err Out : Type 0} → Reply Err Out → Option Err
error_of (replied out) = none
error_of (failed err) = some err

-- The world after a call that is recorded.
abbrev pub after_call :
    {Err State : Type 0} → String → String → Option Err → State → World Err State → World Err State
after_call op_type op_id err s w = record {
  aws = s;
  metrics = w.metrics ++ (record { op_type = op_type; op_id = op_id; err = err } ∷ []);
}
