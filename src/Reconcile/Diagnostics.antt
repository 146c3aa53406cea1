-- ===== src/Reconcile/Diagnostics.antt =====
-- `redacted_diagnostics` of core/src/reconcile.rs.
use better_commerce.Prelude.{
  ℕ, zero, suc, ◌-◌, Bool, true, false, not, ◌&&◌, ◌||◌, Text, text, List, [], ◌∷◌, ◌++◌, BTreeMap,
  bytes, length, leb, ◌==◌, if◌then◌else◌,
}
use better_commerce.Prelude.Chars.{is_empty}
use better_commerce.Example.Configuration.{trim}

unfoldable pub starts_with : Text → Text → Bool
starts_with [] s = true
starts_with (p ∷ ps) [] = false
starts_with (p ∷ ps) (c ∷ s) = p == c && starts_with ps s

-- `str::ends_with`.
unfoldable pub ends_with : Text → Text → Bool
ends_with suffix [] = is_empty suffix
ends_with suffix (c ∷ s) =
    (length suffix == length (c ∷ s) && starts_with suffix (c ∷ s)) || ends_with suffix s

-- `str::replace` for a pattern that is not empty: from left to right, `skipped` characters of the
-- last match being left to pass over.
unfoldable pub replace_from : Text → Text → ℕ → Text → Text
replace_from pattern by skipped [] = []
replace_from pattern by (suc skipped) (c ∷ s) = replace_from pattern by skipped s
replace_from pattern by zero (c ∷ s) =
    let found = replace_from pattern by (length pattern - 1) s in
    let other = replace_from pattern by zero s in
    if starts_with pattern (c ∷ s) then by ++ found else c ∷ other

unfoldable pub replace : Text → Text → Text → Text
replace pattern by s = replace_from pattern by zero s

unfoldable pub is_sensitive : Text → Text → Bool
is_sensitive key value =
    not (is_empty value)
    && (ends_with (text "_PASSWORD") key || ends_with (text "_DATABASE_URL") key)

-- `filter` and `map`.
unfoldable pub sensitive_values : BTreeMap Text → List Text
sensitive_values [] = []
sensitive_values ((key, value) ∷ rest) =
    let others = sensitive_values rest in if is_sensitive key value then value ∷ others else others

-- `sort_by_key` on the length, the longest first; equal lengths keep their order.
unfoldable pub insert_by_length : Text → List Text → List Text
insert_by_length v [] = v ∷ []
insert_by_length v (w ∷ ws) =
    let rest = insert_by_length v ws in
    if leb (length (bytes w)) (length (bytes v)) then v ∷ w ∷ ws else w ∷ rest

unfoldable pub sort_by_length : List Text → List Text
sort_by_length [] = []
sort_by_length (v ∷ vs) = insert_by_length v (sort_by_length vs)

unfoldable pub redact : List Text → Text → Text
redact [] message = message
redact (secret ∷ secrets) message = redact secrets (replace secret (text "[REDACTED]") message)

unfoldable pub skip : ℕ → Text → Text
skip zero s = s
skip (suc n) [] = []
skip (suc n) (c ∷ s) = skip n s

abbrev pub kept_characters : ℕ
kept_characters = 4000

unfoldable pub truncated : Text → Text
truncated message =
    let start = length message - kept_characters in
    let suffix = skip start message in
    if start == 0 then suffix else text "[earlier diagnostics truncated] " ++ suffix

unfoldable pub redacted_diagnostics : (List ℕ → Text) → List ℕ → List ℕ → BTreeMap Text → Text
redacted_diagnostics from_utf8_lossy stdout stderr environment =
    let raw = from_utf8_lossy stdout ++ from_utf8_lossy stderr in
    let message = trim (redact (sort_by_length (sensitive_values environment)) raw) in
    if is_empty message then text "Compose returned no diagnostic output" else truncated message
