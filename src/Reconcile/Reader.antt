-- ===== src/Reconcile/Reader.antt =====
-- A reader of the URLs of core/src/reconcile.rs for the tests, with a percent-encoding of the
-- apostrophe, and what the crates `url` and `percent-encoding` are relied on for.
use better_commerce.Prelude.{
  ℕ, ◌≡◌, refl, ap, ◌∙◌, true, not, some, Text, text, [], ◌∷◌, ◌++◌, arith, ◌==◌, if◌then◌else◌,
}
use better_commerce.Prelude.Chars.{all, is_ascii_lowercase}
use better_commerce.Prelude.Formats.{parse_unsigned, digits_value}
use better_commerce.Prelude.Parsing.{all-implies}
use better_commerce.Manifest.Samples.{crates}
use better_commerce.Database.Types.{Urls}
use better_commerce.Database.Identifiers.{is_role_byte}
use better_commerce.Reconcile.Types.{Machine, ResolvedSecrets}
use better_commerce.Reconcile.Samples.{machine, until, behind, urls}
use better_commerce.Reconcile.Urls.{is_coded_byte, ReadsUrls}

unfoldable pub encode : Text → Text
encode [] = []
encode (c ∷ s) = let rest = encode s in if c == 0x27 then text "%27" ++ rest else c ∷ rest

abbrev without_code : Text → Text
without_code (a ∷ b ∷ s) = s
without_code s = s

unfoldable pub decode : Text → Text
decode [] = []
decode (c ∷ s) = let rest = decode s in if c == 0x25 then 0x27 ∷ without_code rest else c ∷ rest

abbrev pub reader : Urls
reader = record urls { percent_decode = λ s. some (decode s) }

-- A machine whose secrets need the encoding.
abbrev pub encoder : Machine crates
encoder = record machine { utf8_percent_encode = encode; get_env = λ name. some (text "it's") }

abbrev pub secrets : ResolvedSecrets
secrets = record {
  operations_password = text "it's";
  example_password = text "it's";
  dispatcher_password = text "it's";
  readiness_password = text "it's";
}

abbrev Lacks : ℕ → Text → Type 0
Lacks x s = all (λ c. not (c == x)) s ≡ true

until-append : (x : ℕ) (s t : Text) → Lacks x s → until x (s ++ x ∷ t) ≡ s
unfolding until all
until-append x [] t h = ground arith
until-append x (c ∷ s) t h = ground (arith, until-append x s t)

behind-append : (x : ℕ) (s t : Text) → Lacks x s → behind x (s ++ t) ≡ behind x t
unfolding behind all
behind-append x [] t h = refl
behind-append x (c ∷ s) t h = ground (arith, behind-append x s t)

decode-plain : (s : Text) → all is_role_byte s ≡ true → decode s ≡ s
unfolding decode all
decode-plain [] h = refl
decode-plain (c ∷ s) h = ground (arith, decode-plain s)

module _ (user secret host name : Text) (u : all is_role_byte user ≡ true)
    (k : all is_coded_byte secret ≡ true) (l : all is_ascii_lowercase host ≡ true) where
  abbrev server : Text
  server = host ++ (text ":5432/" ++ name)

  abbrev given : Text
  given = user ++ (text ":" ++ (secret ++ (text "@" ++ server)))

  user-Lacks : (x : ℕ) → ((c : ℕ) → is_role_byte c ≡ true → not (c == x) ≡ true) → Lacks x user
  user-Lacks x h = all-implies is_role_byte (λ c. not (c == x)) user h u

  secret-Lacks : (x : ℕ) → ((c : ℕ) → is_coded_byte c ≡ true → not (c == x) ≡ true) → Lacks x secret
  secret-Lacks x h = all-implies is_coded_byte (λ c. not (c == x)) secret h k

  host-Lacks :
      (x : ℕ) → ((c : ℕ) → is_ascii_lowercase c ≡ true → not (c == x) ≡ true) → Lacks x host
  host-Lacks x h = all-implies is_ascii_lowercase (λ c. not (c == x)) host h l

  behind_at : behind 0x40 given ≡ server
  unfolding behind
  behind_at =
      behind-append 0x40 user _ (user-Lacks 0x40 (λ c h. ground arith))
      ∙ behind-append 0x40 secret _ (secret-Lacks 0x40 (λ c h. ground arith))

  behind_user : behind 0x3a given ≡ secret ++ (text "@" ++ server)
  unfolding behind
  behind_user = behind-append 0x3a user _ (user-Lacks 0x3a (λ c h. ground arith))

  behind_host : behind 0x3a server ≡ text "5432/" ++ name
  unfolding behind
  behind_host = behind-append 0x3a host _ (host-Lacks 0x3a (λ c h. ground arith))

  behind_port : behind 0x2f given ≡ name
  unfolding behind
  behind_port =
      behind-append 0x2f user _ (user-Lacks 0x2f (λ c h. ground arith))
      ∙ (behind-append 0x2f secret _ (secret-Lacks 0x2f (λ c h. ground arith))
          ∙ behind-append 0x2f host _ (host-Lacks 0x2f (λ c h. ground arith)))

  host_part : until 0x3a (behind 0x40 given) ≡ host
  host_part =
      ap (until 0x3a) behind_at ∙ until-append 0x3a host _ (host-Lacks 0x3a (λ c h. ground arith))

  user_part : until 0x3a given ≡ user
  user_part = until-append 0x3a user _ (user-Lacks 0x3a (λ c h. ground arith))

  secret_part : until 0x40 (behind 0x3a given) ≡ secret
  secret_part =
      ap (until 0x40) behind_user
      ∙ until-append 0x40 secret _ (secret-Lacks 0x40 (λ c h. ground arith))

  port_part : until 0x2f (behind 0x3a (behind 0x40 given)) ≡ text "5432"
  unfolding until
  port_part = ap (λ s. until 0x2f (behind 0x3a s)) behind_at ∙ ap (until 0x2f) behind_host

number : parse_unsigned 65536 (text "5432") ≡ some 5432
unfolding parse_unsigned digits_value
number = refl

pub reader-ReadsUrls : ReadsUrls reader
unfolding behind
reader-ReadsUrls = record {
  reads = λ user secret host name _ u _ k _ l _. record {
    url = given user secret host name u k l;
    parsed = refl;
    host_read = ap some (host_part user secret host name u k l);
    port_read = ap (parse_unsigned 65536) (port_part user secret host name u k l) ∙ number;
    path_read = ap (λ s. 0x2f ∷ s) (behind_port user secret host name u k l);
    user_read = user_part user secret host name u k l;
    secret_read = ap some (secret_part user secret host name u k l);
  };
  plain = λ s h. ap some (decode-plain s h);
}
