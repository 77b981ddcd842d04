-- ===== src/Conditions.antt =====
-- `setStatusDefaults`, `terminalAWSError` and `updateConditions` of
-- pkg/resource/global_network/sdk.go.
-- `DeepCopy` makes each element of the copy's `Conditions` a new object, so a pointer to one of
-- them is its index.
pub mod Views
pub mod Report
pub mod Rewrite
pub mod Laws
pub mod Memory
use ack_networkmanager_contr.Prelude.{
  length, ℕ, zero, suc, String, Bool, true, false, not, ◌||◌, Option, none, some, List, [], ◌∷◌,
  ◌++◌, or_else, is_nil, elements, Outcome, done, panic, nil_dereference, deref, ◌==◌,
  if◌then◌else◌, ◌>>=◌,
}
use ack_networkmanager_contr.Types.{
  Condition, ConditionType, ConditionStatus, terminal, recoverable, resource_synced, status_true,
  status_false, unset, is_type, GlobalNetwork, GlobalNetworkStatus, ResourceMetadata,
  empty_metadata, Resource, ResourceManager,
}
use ack_networkmanager_contr.External.{Errors}

abbrev pub metadata_or_empty : Option ResourceMetadata → ResourceMetadata
metadata_or_empty none = empty_metadata
metadata_or_empty (some m) = m

-- The three defaults of the metadata.
abbrev pub default_metadata : ResourceManager → ResourceMetadata → ResourceMetadata
default_metadata rm m = record {
  arn = m.arn;
  owner_account_id = or_else m.owner_account_id (some rm.aws_account_id);
  region = or_else m.region (some rm.aws_region);
  partition = or_else m.partition (some rm.aws_partition);
}

unfoldable pub set_status_defaults : ResourceManager → GlobalNetwork → GlobalNetwork
set_status_defaults rm ko = record ko {
  status = record ko.status {
    ack_resource_metadata =
        some (default_metadata rm (metadata_or_empty ko.status.ack_resource_metadata));
    conditions = or_else ko.status.conditions (some []);
  };
}

-- `terminalCondition`, `recoverableCondition` and `syncCondition`
pub record Pointers : Type 0 where
  pub terminal_condition : Option ℕ
  pub recoverable_condition : Option ℕ
  pub sync_condition : Option ℕ

abbrev pub note : ℕ → Condition → Pointers → Pointers
note i c p = record {
  terminal_condition = if is_type c.type terminal then some i else p.terminal_condition;
  recoverable_condition = if is_type c.type recoverable then some i else p.recoverable_condition;
  sync_condition = if is_type c.type resource_synced then some i else p.sync_condition;
}

-- The loop over the conditions, from index `i` on.
pub find_conditions : ℕ → List Condition → Pointers → Pointers
find_conditions i [] p = p
find_conditions i (c ∷ cs) p = find_conditions (suc i) cs (note i c p)

-- `c.Status = s; c.Message = m`
abbrev pub assign : ConditionStatus → Option String → Condition → Condition
assign s m c = record c { status = s; message = m }

-- A write through a pointer.
pub write_at : ℕ → ConditionStatus → Option String → List Condition → List Condition
write_at i s m [] = []
write_at zero s m (c ∷ cs) = assign s m c ∷ cs
write_at (suc i) s m (c ∷ cs) = c ∷ write_at i s m cs

-- A write through a pointer that may be nil, under the test that it is not.
abbrev pub write_if : Option ℕ → ConditionStatus → Option String → List Condition → List Condition
write_if none s m cs = cs
write_if (some i) s m cs = write_at i s m cs

-- `&ackv1alpha1.Condition{Type: t}`
abbrev pub new_condition : ConditionType → Condition
new_condition t = record { type = t; status = unset; message = none }

-- A nil pointer is set to a new condition, which is appended; then the write.
abbrev pub write_or_append :
    ConditionType → Option ℕ → ConditionStatus → Option String → List Condition → List Condition
write_or_append t none s m cs = write_at (length cs) s m (cs ++ (new_condition t ∷ []))
write_or_append t (some i) s m cs = write_at i s m cs

-- The pointer after that.
abbrev pub set_or_appended : Option ℕ → List Condition → Option ℕ
set_or_appended none cs = some (length cs)
set_or_appended (some i) cs = some i

abbrev pub no_pointers : Pointers
no_pointers = record {
  terminal_condition = none;
  recoverable_condition = none;
  sync_condition = none;
}

-- `terminalCondition != nil || recoverableCondition != nil || syncCondition != nil`
abbrev pub any_condition : Pointers → Bool
any_condition p =
    not (is_nil p.terminal_condition)
    || not (is_nil p.recoverable_condition)
    || not (is_nil p.sync_condition)

module _ (E : Errors) where
  abbrev pub is_validation_error : Option E.ApiError → Bool
  is_validation_error none = false
  is_validation_error (some e) = E.error_code e == "ValidationException"

  unfoldable pub terminal_aws_error : Option E.Err → Bool
  terminal_aws_error none = false
  terminal_aws_error (some err) = is_validation_error (E.as_api_error err)

  -- `err == ackerr.SecretTypeNotSupported || err == ackerr.SecretNotFound || errors.As(…)`
  abbrev pub is_terminal_value : E.Err → Bool
  is_terminal_value err =
      E.same err E.secret_type_not_supported
      || E.same err E.secret_not_found
      || E.is_terminal_error err

  abbrev pub is_terminal : E.Err → Bool
  is_terminal err = terminal_aws_error (some err) || is_terminal_value err

  -- `awsErr.Error()` on what `ackerr.AWSError` returned
  abbrev pub api_message : Option E.ApiError → Outcome String
  api_message none = panic nil_dereference
  api_message (some e) = done (E.api_text e)

  abbrev pub terminal_message : E.Err → Outcome String
  terminal_message err =
      if is_terminal_value err then done (E.text err) else api_message (E.aws_error err)

  abbrev pub recoverable_message : E.Err → String
  recoverable_message err = elim (E.aws_error err) [ none ↦ E.text err | some e ↦ E.api_text e ]

  -- The conditions and the pointers after the two branches.
  unfoldable pub rewrite_conditions :
      Option E.Err → Pointers → List Condition → Outcome (List Condition × Pointers)
  unfolding terminal_aws_error write_at
  rewrite_conditions none p cs = done (
    write_if p.recoverable_condition status_false none
        (write_if p.terminal_condition status_false none cs),
    p,
  )
  rewrite_conditions (some err) p cs =
      if is_terminal err
      then (do
        text ← terminal_message err
        done (
          write_or_append terminal p.terminal_condition status_true (some text) cs,
          record p { terminal_condition = set_or_appended p.terminal_condition cs },
        ))
      else (let cleared = write_if p.terminal_condition status_false none cs in
          done (
            write_or_append recoverable p.recoverable_condition status_true
                (some (recoverable_message err)) cleared,
            record p { recoverable_condition = set_or_appended p.recoverable_condition cleared },
          ))

  unfoldable pub update_conditions :
      ResourceManager → Resource → Option E.Err → Outcome (Option Resource × Bool)
  unfolding set_status_defaults find_conditions rewrite_conditions
  update_conditions rm r err = do
    original ← deref r.ko
    let ko = set_status_defaults rm original
    (conditions, p) ←
        rewrite_conditions err (find_conditions 0 (elements ko.status.conditions) no_pointers)
          (elements ko.status.conditions)
    done (
        if any_condition p
        then (
          some (record {
            ko = some (record ko { status = record ko.status { conditions = some conditions } });
          }),
          true,
        )
        else (none, false))
