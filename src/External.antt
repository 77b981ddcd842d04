-- ===== src/External.antt =====
-- What the controller takes from other repositories, as interfaces: Go errors and the ACK runtime's
-- error values, `ackcompare`, `acktags`, and the AWS client. The laws state what they document.
use ack_networkmanager_contr.Prelude.{
  ℕ, String, ◌≡◌, ◌↔◌, Bool, true, false, not, ◌||◌, Option, some, List, Slice, or_else, contains,
  elements, ◌==◌, if◌then◌else◌,
}
use ack_networkmanager_contr.Maps.{GoMap, get, NodupKeys}
use ack_networkmanager_contr.Types.{Tag, GlobalNetwork, Resource, ConditionStatus}

-- Values of `error` that are not nil, `errors.As`, and the values and functions of `ackerr`.
pub record Errors : Type 1 where
  pub Err : Type 0
  pub ApiError : Type 0
  -- `err == e`
  pub same : Err → Err → Bool
  -- `err.Error()`
  pub text : Err → String
  -- `errors.As(err, &e)` for `smithy.APIError`, with `e.ErrorCode()` and `e.Error()`
  pub as_api_error : Err → Option ApiError
  pub error_code : ApiError → String
  pub api_text : ApiError → String
  -- `errors.As(err, &e)` for `*ackerr.TerminalError`
  pub is_terminal_error : Err → Bool
  -- `ackerr.AWSError`
  pub aws_error : Err → Option ApiError
  pub not_found : Err
  pub terminal_err : Err
  pub secret_type_not_supported : Err
  pub secret_not_found : Err
  pub missing_name_identifier : Err
  pub new_terminal_error : Err → Err
  -- `fmt.Errorf`
  pub errorf : String → Err
  -- `ackrequeue.NeededAfter(nil, n * time.Second)`
  pub needed_after : ℕ → Err

pub record IsErrors (E : Errors) : Type 0 where
  -- `ackerr.AWSError` finds the API error that `errors.As` finds.
  pub aws_error_as : (e : E.Err) → E.aws_error e ≡ E.as_api_error e

-- The two values that a recorded difference stands between.
pub data DeltaValue : Type 0 where
  resource_value : Option Resource → DeltaValue
  string_value : Option String → DeltaValue
  tags_value : Slice Tag → DeltaValue

-- `ackcompare`
pub record Compare : Type 1 where
  pub Delta : Type 0
  pub new_delta : Delta
  pub add : Delta → String → DeltaValue → DeltaValue → Delta
  pub different_at : Delta → String → Bool
  pub different_except : Delta → String → Bool
  pub has_nil_difference : Option String → Option String → Bool
  pub map_string_string_equal : GoMap String → GoMap String → Bool
  -- A recorded path lies at or below a subject.
  pub path_contains : String → String → Bool

pub record IsCompare (C : Compare) : Type 0 where
  pub at-new_delta : (s : String) → C.different_at C.new_delta s ≡ false
  pub at-add :
      (d : C.Delta) (p s : String) (x y : DeltaValue)
      → C.different_at (C.add d p x y) s ≡ (C.path_contains p s || C.different_at d s)
  pub except-new_delta : (s : String) → C.different_except C.new_delta s ≡ false
  pub except-add :
      (d : C.Delta) (p s : String) (x y : DeltaValue)
      → C.different_except (C.add d p x y) s ≡ (not (C.path_contains p s) || C.different_except d s)
  pub contains_self : (p : String) → C.path_contains p p ≡ true
  pub description_apart : C.path_contains "Spec.Description" "Spec.Tags" ≡ false
  pub tags_apart : C.path_contains "Spec.Tags" "Spec.Description" ≡ false
  pub nil_difference_of_values : (a b : String) → C.has_nil_difference (some a) (some b) ≡ false
  pub map_equal_iff :
      (m n : GoMap String)
      → (C.map_string_string_equal m n ≡ true) ↔ ((k : String) → get k m ≡ get k n)

-- `acktags.Merge`, and `ackrt.GetDefaultTags` at the manager's configuration.
pub record TagLibrary : Type 0 where
  pub get_default_tags : GlobalNetwork → GoMap String
  pub merge : GoMap String → GoMap String → GoMap String

pub record IsTagLibrary (T : TagLibrary) : Type 0 where
  -- A value of the first map is kept.
  pub get-merge :
      (k : String) (a b : GoMap String) → get k (T.merge a b) ≡ or_else (get k a) (get k b)
  pub merge-NodupKeys : (a b : GoMap String) → NodupKeys a → NodupKeys b → NodupKeys (T.merge a b)
  pub default-NodupKeys : (ko : GlobalNetwork) → NodupKeys (T.get_default_tags ko)

-- The structs of `svcsdktypes` and `svcsdk` that the program fills and reads.
pub record SdkTag : Type 0 where
  pub key : Option String
  pub value : Option String

pub record SdkGlobalNetwork : Type 0 where
  pub created_at : Option ℕ
  pub description : Option String
  pub global_network_arn : Option String
  pub global_network_id : Option String
  pub state : String
  pub tags : Slice SdkTag

pub record DescribeInput : Type 0 where
  pub global_network_ids : Slice String

pub record DescribeOutput : Type 0 where
  pub global_networks : Slice SdkGlobalNetwork

pub record CreateInput : Type 0 where
  pub description : Option String
  pub tags : Slice SdkTag

pub record UpdateInput : Type 0 where
  pub description : Option String
  pub global_network_id : Option String

pub record DeleteInput : Type 0 where
  pub global_network_id : Option String

-- The output of Create, of Update and of Delete.
pub record NetworkOutput : Type 0 where
  pub global_network : Option SdkGlobalNetwork

pub record TagInput : Type 0 where
  pub resource_arn : Option String
  pub tags : Slice SdkTag

pub record UntagInput : Type 0 where
  pub resource_arn : Option String
  pub tag_keys : Slice String

-- An output, or an error that is not nil.
pub data Reply (Err Out : Type 0) : Type 0 where
  replied : Out → Reply Err Out
  failed : Err → Reply Err Out

-- `svcsdk.Client` over the state of AWS.
pub record Client (Err : Type 0) : Type 1 where
  pub State : Type 0
  pub describe_global_networks : DescribeInput → State → Reply Err DescribeOutput × State
  pub create_global_network : CreateInput → State → Reply Err NetworkOutput × State
  pub update_global_network : UpdateInput → State → Reply Err NetworkOutput × State
  pub delete_global_network : DeleteInput → State → Reply Err NetworkOutput × State
  pub tag_resource : TagInput → State → Reply Err (Unit {0}) × State
  pub untag_resource : UntagInput → State → Reply Err (Unit {0}) × State

-- `ackutil.InStrings`, and `ackcondition.SetLateInitialized` and `SetSynced` with their status,
-- message and reason; they return the resource that they change.
pub record Utilities : Type 0 where
  pub in_strings : String → List String → Bool
  pub set_late_initialized : Resource → ConditionStatus → Option String → Option String → Resource
  pub set_synced : Resource → ConditionStatus → Option String → Option String → Resource

pub record IsUtilities (U : Utilities) : Type 0 where
  pub in_strings_lem : (s : String) (ss : List String) → U.in_strings s ss ≡ contains ss s

-- `k8sctrlutil.AddFinalizer` and `RemoveFinalizer` on an object's finalizers.
pub record Finalizers : Type 0 where
  pub add_finalizer : Slice String → String → Slice String
  pub remove_finalizer : Slice String → String → Slice String

pub record IsFinalizers (F : Finalizers) : Type 0 where
  pub contains-add_finalizer :
      (fs : Slice String) (f g : String)
      → contains (elements (F.add_finalizer fs f)) g ≡ (f == g || contains (elements fs) g)
  pub contains-remove_finalizer :
      (fs : Slice String) (f g : String)
      → contains (elements (F.remove_finalizer fs f)) g
        ≡ (if f == g then false else contains (elements fs) g)
