-- ===== src/Reconcile/Sources.antt =====
-- Where the secrets that core/src/reconcile.rs resolves come from.
use better_commerce.Prelude.{
  ℕ, ◌≡◌, refl, ◌⊎◌, inl, inr, Bool, true, false, ◌||◌, some, Option-cases, Bool-cases, Text, [],
  ◌∷◌, ◌++◌, Memᴰ, ok, err, ◌==◌,
}
use better_commerce.Prelude.Names.{IsName}
use better_commerce.Manifest.Types.{Crates, SecretReference, environment, file}
use better_commerce.Reconcile.Types.{Machine, ReconcileError}
use better_commerce.Prelude.Chars.{trim_end_matches, is_empty}
use better_commerce.Reconcile.Secrets.{valid_name, secret_path, secret_value, resolve}

module _ {X : Crates} (M : Machine X) where
  -- The value of the variable, or of the file without the line ends at its end.
  abbrev pub IsSource : SecretReference → Text → Text → Type 0
  IsSource (environment env) manifest_dir value =
      (valid_name M env ≡ true) × (M.get_env env ≡ some value)
  IsSource (file path) manifest_dir value =
      (content : Text) × (M.read_to_string (secret_path M manifest_dir path) ≡ some content)
      × (value ≡ trim_end_matches (λ c. c == 0xd || c == 0xa) content)

  secret_value-Source :
      (reference : SecretReference) (manifest_dir : Text)
      → ((value : Text) × (secret_value M reference manifest_dir ≡ ok value)
          × IsSource reference manifest_dir value)
        ⊎ ((e : ReconcileError) × (secret_value M reference manifest_dir ≡ err e))
  unfolding secret_value
  secret_value-Source (environment env) manifest_dir = elim (Bool-cases (valid_name M env)) [
    | inl v ↦ elim (Option-cases (M.get_env env)) [
      | inl g ↦ rw (v, g) (inr (_, refl))
      | inr (value, g) ↦ rw (v, g) (inl (value, refl, (refl, refl)))
    ]
    | inr v ↦ rw v (inr (_, refl))
  ]
  secret_value-Source (file path) manifest_dir =
      elim (Option-cases (M.read_to_string (secret_path M manifest_dir path))) [
        | inl g ↦ rw g (inr (_, refl))
        | inr (content, g) ↦ rw g (inl (_, refl, (content, refl, refl)))
      ]

  pub resolve-Source :
      (reference : SecretReference) (manifest_dir : Text) {value : Text}
      → resolve M reference manifest_dir ≡ ok value
      → IsSource reference manifest_dir value × (is_empty value ≡ false)
  unfolding resolve
  resolve-Source reference manifest_dir {value} h =
      elim (secret_value-Source reference manifest_dir) [
        | inl (v, e, source) ↦ elim (Bool-cases (is_empty v)) [
          | inl blank ↦ cc (rw (e, blank) at h)
          | inr full ↦ let is : v ≡ value = cc (rw (e, full) at h) in rw (← is) (source, full)
        ]
        | inr (error, e) ↦ cc (rw e at h)
      ]

  -- The path of a secret file: absolute, or in the directory of the manifest.
  abbrev pub IsPath : Text → Text → Text → Type 0
  IsPath manifest_dir given path =
      ((M.is_absolute given ≡ true) × (path ≡ given))
      ⊎ ((M.is_absolute given ≡ false) × (path ≡ M.join manifest_dir given))

  abbrev pub IsLineEnd : ℕ → Type 0
  IsLineEnd c = (c ≡ 0xd) ⊎ (c ≡ 0xa)

  -- The content is the value and then line ends only, and the value does not end in one.
  pub record IsTrimmed (content value : Text) : Type 0 where
    pub ends : Text
    pub joined : content ≡ value ++ ends
    pub all_ends : (c : ℕ) → Memᴰ c ends → IsLineEnd c
    pub no_end : (front : Text) (c : ℕ) → value ≡ front ++ c ∷ [] → ¬ IsLineEnd c

  -- The secret of a variable with a proper name, or of a file.
  abbrev pub IsSecret : SecretReference → Text → Text → Type 0
  IsSecret (environment env) manifest_dir value = IsName env × (M.get_env env ≡ some value)
  IsSecret (file given) manifest_dir value =
      (path : Text) × IsPath manifest_dir given path
      × ((content : Text) × (M.read_to_string path ≡ some content) × IsTrimmed content value)

  abbrev is_line_end : ℕ → Bool
  is_line_end c = c == 0xd || c == 0xa
