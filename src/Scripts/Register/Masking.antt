-- ===== src/Scripts/Register/Masking.antt =====
-- What a dry run shows and does (scripts/register_search_attributes.py).
use warden_demo_workload.Prelude.{
  ◌≡◌, ◌≢◌, refl, String, Bool, true, false, none, List, [], ◌∷◌, map, ◌==◌, eq_iff, All,
  All-append, Bool-cases, inl, inr, arith, length, subst,
}
use warden_demo_workload.Prelude.Int.{ℤ}
use warden_demo_workload.Common.Config.{Env, Config, load_config}
use warden_demo_workload.Common.SearchAttributes.{all_keys}
use warden_demo_workload.Python.Value.{Conversions, ok}
use warden_demo_workload.Workers.Supervisor.{is_in}
use warden_demo_workload.Scripts.Register.{
  Line, missing_namespace, tcld_not_found, registering, tcld_failed, finished, heading, listed,
  words, Spec, masked, build_command, attribute_specs, register, main, env_or,
}

-- A line on which no word of a command is the key.
abbrev pub Hides : String → Line → Type 0
Hides key (words parts) = is_in key parts ≡ false
Hides key (heading n namespace) = Unit
Hides key (listed s) = Unit
Hides key missing_namespace = Unit
Hides key tcld_not_found = Unit
Hides key registering = Unit
Hides key tcld_failed = Unit
Hides key finished = Unit

masked-is_in :
    (key : String) (parts : List String)
    → key ≢ "***"
    → key ≢ ""
    → is_in key (masked key parts) ≡ false
unfolding masked
masked-is_in key [] h k = refl
masked-is_in key (p ∷ parts) h k =
    ground (arith, eq_iff p key, eq_iff "***" key, eq_iff key "", masked-is_in key parts h k)

listed-Hides : (key : String) (specs : List Spec) → All (Hides key) (map listed specs)
listed-Hides key [] = tt
listed-Hides key (s ∷ specs) = (tt, listed-Hides key specs)

register-dry_run :
    (found : Bool) (tcld : List String → ℤ) (namespace key : String) (printed : List Line)
    → key ≢ "***"
    → key ≢ ""
    → All (Hides key) printed
    → let r = register true found tcld namespace key printed in
      (r.ran ≡ none) × All (Hides key) r.printed
unfolding register
register-dry_run found tcld namespace key printed h k shown = (
  refl,
  All-append (Hides key) printed (words (masked key (build_command namespace key)) ∷ []) shown
      (masked-is_in key (build_command namespace key) h k, tt),
)

-- A dry run runs no command, and the command that it prints does not have the key as a word, be it
-- the key of the environment or the one of the settings; the key is not empty, is not the mask
-- itself, and the settings are read.
pub main-dry_run :
    (cv : Conversions) (env : Env) (found : Bool) (tcld : List String → ℤ) (config : Config)
    (key : String)
    → load_config cv env ≡ ok config
    → key ≡ env_or (env "TEMPORAL_CLOUD_API_KEY") config.api_key
    → key ≢ "***"
    → key ≢ ""
    → let r = main cv env true found tcld in (r.ran ≡ none) × All (Hides key) r.printed
unfolding main
main-dry_run cv env found tcld config key e same h k =
    let namespace : String = env_or (env "TEMPORAL_CLOUD_NAMESPACE") config.namespace in
    let used : String = env_or (env "TEMPORAL_CLOUD_API_KEY") config.api_key in
    let specs : List Spec = attribute_specs all_keys in
    let shown : List Line = heading (length specs) namespace ∷ map listed specs in
    let unmasked : used ≢ "***" = subst (λ u. u ≢ "***") same h in
    let given : used ≢ "" = subst (λ u. u ≢ "") same k in
    rw (e, same)
      (elim (Bool-cases (namespace == "")) [
        | inl missing ↦ rw missing (refl, (tt, tt))
        | inr named ↦ rw named (
            register-dry_run found tcld namespace used shown unmasked given
              (tt, listed-Hides used specs))
      ])
