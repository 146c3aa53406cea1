-- ===== src/Manifest/Acyclic/Chains.antt =====
-- The relation that `ensure_acyclic` of core/src/manifest.rs searches: an enabled module requires
-- another one, directly or through others.
use mathlib.Core.WellFounded.{Acc}
use better_commerce.Prelude.{◌≡◌, true, some, Text, BTreeMap, get, contains_key, Memᴰ}
use better_commerce.Manifest.Types.{Crates, ModuleInstallation, ReleaseMetadata, ModuleMetadata}

module _ (X : Crates) (modules : BTreeMap (ModuleInstallation X))
    (metadata : ReleaseMetadata X) where
  -- The release says that `m` requires `d`, and `d` is enabled.
  pub record Requires (m d : Text) : Type 0 where
    pub module_metadata : ModuleMetadata X
    pub known : get m metadata.modules ≡ some module_metadata
    pub required : Memᴰ d module_metadata.required_dependencies
    pub enabled : contains_key d modules ≡ true

  pub data Chain : Text → Text → Type 0 where
    one : {m d : Text} → Requires m d → Chain m d
    more : {m k d : Text} → Requires m k → Chain k d → Chain m d

  -- Every chain of required modules from `m` ends.
  abbrev pub HasEnd : Text → Type 0
  HasEnd m = Acc (λ d k. Requires k d) m

  pub Chain-snoc : {m k d : Text} → Chain m k → Requires k d → Chain m d
  Chain-snoc (one r) q = more r (one q)
  Chain-snoc (more r c) q = more r (Chain-snoc c q)

  -- A module with an end is on no cycle.
  pub HasEnd-not-Chain : {m : Text} → HasEnd m → ¬ Chain m m
  HasEnd-not-Chain (Acc.intro _ smaller) (one r) = HasEnd-not-Chain (smaller _ r) (one r)
  HasEnd-not-Chain (Acc.intro _ smaller) (more r c) =
      HasEnd-not-Chain (smaller _ r) (Chain-snoc c r)

  -- A chain leads to an enabled module.
  pub Chain-enabled : {m d : Text} → Chain m d → contains_key d modules ≡ true
  Chain-enabled (one r) = r.enabled
  Chain-enabled (more r c) = Chain-enabled c
