-- ===== src/Scripts/Register.antt =====
-- scripts/register_search_attributes.py: the names and types to register, the command, and `main`.
-- `tcld` is a program of others: whether it is found and its return code are the environment's.
pub mod Masking
mod Tests
use Prim.Native.String.{◌++◌ as ◌⧺◌, compare}
use Prim.Native.Nat.{Ordering}
use warden_demo_workload.Prelude.{
  ℕ, zero, suc, String, Bool, true, false, ◌&&◌, not, Option, none, some, List, [], ◌∷◌, ◌++◌, map,
  ◌==◌, if◌then◌else◌, length,
}
use warden_demo_workload.Prelude.Int.{ℤ, pos, negsuc}
use warden_demo_workload.Common.Config.{Env, Config, load_config, get_or}
use warden_demo_workload.Common.SearchAttributes.{IndexedValueType, SearchAttributeKey, all_keys}
use warden_demo_workload.Python.Value.{Conversions, Result, ok, raised, PyError}

-- `_TCLD_TYPE`
unfoldable pub tcld_type : IndexedValueType → String
tcld_type IndexedValueType.text = "Text"
tcld_type IndexedValueType.keyword = "Keyword"
tcld_type IndexedValueType.int = "Int"
tcld_type IndexedValueType.double = "Double"
tcld_type IndexedValueType.bool = "Bool"
tcld_type IndexedValueType.datetime = "Datetime"
tcld_type IndexedValueType.keyword_list = "KeywordList"

-- One entry, by its name and type.
abbrev pub Spec : Type 0
Spec = String × String

-- `f"{key.name}={type_name}"`
abbrev pub spec_text : Spec → String
spec_text (name, type_name) = name ⧺ "=" ⧺ type_name

abbrev is_before : String → String → Bool
is_before s t = elim (compare s t) [ Ordering.lt ↦ true | _ ↦ false ]

-- `sorted`, by the texts.
unfoldable pub insert : Spec → List Spec → List Spec
insert x [] = x ∷ []
insert x (y ∷ ys) =
    let rest = insert x ys in if is_before (spec_text x) (spec_text y) then x ∷ y ∷ ys else y ∷ rest

unfoldable pub sort : List Spec → List Spec
unfolding insert
sort [] = []
sort (x ∷ xs) = insert x (sort xs)

-- `attribute_specs`, for the keys of the fleet; every type has its name, so it raises nothing.
unfoldable pub attribute_specs : List SearchAttributeKey → List Spec
unfolding sort tcld_type
attribute_specs keys = sort (map (λ k. (k.name, tcld_type k.indexed_value_type)) keys)

abbrev spec_arguments : List Spec → List String
spec_arguments [] = []
spec_arguments (s ∷ specs) = "--sa" ∷ spec_text s ∷ spec_arguments specs

-- `build_command`
unfoldable pub build_command : String → String → List String
unfolding attribute_specs
build_command namespace api_key =
    ("tcld" ∷ "--auto_confirm" ∷ "--idempotent" ∷ [])
    ++ (if api_key == "" then [] else "--api-key" ∷ api_key ∷ [])
    ++ ("namespace" ∷ "search-attributes" ∷ "add" ∷ "--namespace" ∷ namespace ∷ [])
    ++ spec_arguments (attribute_specs all_keys)

-- `"***" if part == api_key and api_key else part`, for each part.
unfoldable pub masked : String → List String → List String
masked api_key parts =
    map (λ part. if part == api_key && not (api_key == "") then "***" else part) parts

-- What is printed.
pub data Line : Type 0 where
  missing_namespace tcld_not_found registering tcld_failed finished : Line
  heading : ℕ → String → Line
  listed : Spec → Line
  words : List String → Line

-- How `main` ends: an exception, or a return code; what it has printed; and the command that it has
-- run, if any.
pub record Exited : Type 0 where
  pub code : Result ℤ
  pub printed : List Line
  pub ran : Option (List String)

abbrev quit : ℤ → List Line → Exited
quit code printed = record { code = ok code; printed = printed; ran = none }

-- `os.environ.get(name) or setting`
abbrev pub env_or : Option String → String → String
env_or none setting = setting
env_or (some raw) setting = if raw == "" then setting else raw

abbrev outcome_line : ℤ → Line
outcome_line (pos zero) = finished
outcome_line (pos (suc n)) = tcld_failed
outcome_line (negsuc n) = tcld_failed

abbrev after_run : ℤ → List Line → List String → Exited
after_run code printed cmd = record {
  code = ok code;
  printed = printed ++ registering ∷ outcome_line code ∷ [];
  ran = some cmd;
}

-- The end of `main`, once the specs are printed.
unfoldable pub register : Bool → Bool → (List String → ℤ) → String → String → List Line → Exited
unfolding build_command masked
register dry_run found tcld namespace api_key printed =
    let cmd = build_command namespace api_key in
    if dry_run
    then quit (pos 0) (printed ++ words (masked api_key cmd) ∷ [])
    else if found
    then after_run (tcld cmd) printed cmd
    else quit (pos 1) (printed ++ tcld_not_found ∷ [])

abbrev pub with_config : Env → Bool → Bool → (List String → ℤ) → Result Config → Exited
unfolding register
with_config env dry_run found tcld (raised e) = record { code = raised e; printed = []; ran = none }
with_config env dry_run found tcld (ok config) =
    let namespace = env_or (env "TEMPORAL_CLOUD_NAMESPACE") config.namespace in
    let specs = attribute_specs all_keys in
    if namespace == ""
    then quit (pos 2) (missing_namespace ∷ [])
    else register dry_run found tcld namespace
        (env_or (env "TEMPORAL_CLOUD_API_KEY") config.api_key)
        (heading (length specs) namespace ∷ map listed specs)

-- `main`, for the flag, whether `tcld` is found, and its return code for a command.
unfoldable pub main : Conversions → Env → Bool → Bool → (List String → ℤ) → Exited
unfolding with_config load_config
main cv env dry_run found tcld = with_config env dry_run found tcld (load_config cv env)
